-- ===== src/BodyStore/Crc.antt =====
-- src/utils/body-record.ts, CRC32_TABLE and crc32Buf. A number of the source stands for its 32-bit
-- pattern: `^` and `>>>` look at nothing else, and `>>> 0` is the remainder by 2 ^ 32.
use Prim.Native.Nat.{bit_xor}
use model_proxy_v.Base.{ℕ, zero, suc, ◌/◌, ◌%◌, ◌^◌, ◌<◌, List, [], ◌∷◌, if◌then◌else◌, ◌==◌, arith}

abbrev pub crc_polynomial : ℕ
crc_polynomial = 0xedb88320

-- The inner loop over the eight bits of an index.
pub crc_rounds : ℕ → ℕ → ℕ
crc_rounds zero c = c
crc_rounds (suc k) c = crc_rounds k (if c % 2 == 1 then bit_xor crc_polynomial (c / 2) else c / 2)

-- CRC32_TABLE[n]
pub crc32_table : ℕ → ℕ
unfolding crc_rounds
crc32_table n = crc_rounds 8 n

pub crc_loop : ℕ → List ℕ → ℕ
unfolding crc32_table
crc_loop crc [] = crc
crc_loop crc (b ∷ bs) = crc_loop (bit_xor (crc32_table (bit_xor crc b % 256)) (crc / 256)) bs

unfoldable pub crc32_buf : List ℕ → ℕ
unfolding crc_loop
crc32_buf buf = bit_xor (crc_loop 0xffffffff buf) 0xffffffff % 2 ^ 32

pub crc32_buf-lt : (buf : List ℕ) → crc32_buf buf < 0x100000000
unfolding crc32_buf
crc32_buf-lt buf = omega arith
