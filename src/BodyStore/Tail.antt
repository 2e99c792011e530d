-- ===== src/BodyStore/Tail.antt =====
-- src/utils/body-record.ts, serializeTail and deserializeTail. A length over 2 ^ 53, which the source
-- rounds, is kept whole: no file is as long, and readRecords refuses it either way.
use model_proxy_v.Base.{
  ℕ, ◌^◌, ◌<◌, not, ◌||◌, List, [], ◌∷◌, ◌++◌, Option, none, some, codes, same, if◌then◌else◌, ◌==◌,
  ==_iff, ltb, length, take, ◌≡◌, refl,
}
use model_proxy_v.Base.Bytes.{slice, to_le, of_le, of_le-to_le}
use model_proxy_v.BodyStore.Crc.{crc32_buf, crc32_buf-lt}

abbrev pub rec_magic : List ℕ
rec_magic = codes "$ReCorDeR"

abbrev pub rec_version : ℕ
rec_version = 1

abbrev pub rec_tail_size : ℕ
rec_tail_size = 40

pub record RecTail : Type 0 where
  pub payload_len : ℕ
  pub prev_tail_off : ℕ
  pub payload_crc32 : ℕ

-- Bytes 0 to 35.
abbrev pub tail_fields : RecTail → List ℕ
tail_fields t =
    rec_magic
    ++ (0 ∷ 0 ∷ 0 ∷ [])
    ++ to_le 2 rec_version
    ++ to_le 2 rec_tail_size
    ++ to_le 8 t.payload_len
    ++ to_le 8 t.prev_tail_off
    ++ to_le 4 t.payload_crc32

unfoldable pub serialize_tail : RecTail → List ℕ
serialize_tail t = tail_fields t ++ to_le 4 (crc32_buf (tail_fields t))

unfoldable pub deserialize_tail : List ℕ → Option RecTail
deserialize_tail buf =
    if ltb (length buf) rec_tail_size
    then none
    else if not (same (take 9 buf) rec_magic)
    then none
    else if not (of_le (slice 12 2 buf) == rec_version)
        || not (of_le (slice 14 2 buf) == rec_tail_size)
    then none
    else if not (crc32_buf (take 36 buf) == of_le (slice 36 4 buf))
    then none
    else some (record {
      payload_len = of_le (slice 16 8 buf);
      prev_tail_off = of_le (slice 24 8 buf);
      payload_crc32 = of_le (slice 32 4 buf);
    })

-- The numbers of a tail fit their fields.
pub record Fits (t : RecTail) : Type 0 where
  pub len_fits : t.payload_len < 2 ^ 64
  pub prev_fits : t.prev_tail_off < 2 ^ 64
  pub crc_fits : t.payload_crc32 < 2 ^ 32

pub length-serialize_tail : (t : RecTail) → length (serialize_tail t) ≡ rec_tail_size
unfolding serialize_tail
length-serialize_tail t = refl

-- A tail that was written is read back.
pub deserialize_tail-serialize_tail :
    (t : RecTail) → Fits t → deserialize_tail (serialize_tail t) ≡ some t
unfolding serialize_tail deserialize_tail same
deserialize_tail-serialize_tail t fits =
    let n : ℕ = crc32_buf (tail_fields t) in
    rw (
      of_le-to_le 4 n (crc32_buf-lt (tail_fields t)),
      of_le-to_le 8 t.payload_len fits.len_fits,
      of_le-to_le 8 t.prev_tail_off fits.prev_fits,
      of_le-to_le 4 t.payload_crc32 fits.crc_fits,
      (==_iff n n).1 refl,
    )
