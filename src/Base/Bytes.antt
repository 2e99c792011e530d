-- ===== src/Base/Bytes.antt =====
-- Byte strings: slices, little-endian numbers, and the laws of both.
use Prim.Native.Nat.{ℕ, zero, suc, ◌+◌, ◌*◌, ◌/◌, ◌%◌, ◌≤◌, ◌<◌}
use mathlib.Core.Path.{◌≡◌, refl, ap}
use mathlib.Core.List.{List, [], ◌∷◌, ◌++◌}
use native.Mathlib.Omega.{arith}
use model_proxy_v.Base.Lists.{length, take, drop}

module _ {ℓ} {A : Type ℓ} where
  -- `xs.subarray(at, at + n)`, and what a read of `n` elements at `at` finds
  abbrev pub slice : ℕ → ℕ → List A → List A
  slice at n xs = take n (drop at xs)

  pub take-append : (xs ys : List A) → take (length xs) (xs ++ ys) ≡ xs
  take-append [] ys = refl
  take-append (x ∷ xs) ys = ap (◌∷◌ x) (take-append xs ys)

  pub drop-append : (xs ys : List A) → drop (length xs) (xs ++ ys) ≡ ys
  drop-append [] ys = refl
  drop-append (x ∷ xs) ys = drop-append xs ys

  pub take_all : (xs : List A) → take (length xs) xs ≡ xs
  take_all [] = refl
  take_all (x ∷ xs) = ap (◌∷◌ x) (take_all xs)

  take-append_left : (n : ℕ) (xs ys : List A) → n ≤ length xs → take n (xs ++ ys) ≡ take n xs
  take-append_left zero xs ys h = refl
  take-append_left (suc n) [] ys h = absurd (omega arith)
  take-append_left (suc n) (x ∷ xs) ys h = ap (◌∷◌ x) (take-append_left n xs ys (omega arith))

  -- What stands in the first list is read there.
  pub slice-append_left :
      (at n : ℕ) (xs ys : List A) → at + n ≤ length xs → slice at n (xs ++ ys) ≡ slice at n xs
  slice-append_left zero n xs ys h = take-append_left n xs ys (omega arith)
  slice-append_left (suc at) n [] ys h = absurd (omega arith)
  slice-append_left (suc at) n (x ∷ xs) ys h = slice-append_left at n xs ys (omega arith)

  -- What stands behind the first list is read at its end.
  pub slice-append_right :
      (at n : ℕ) (xs ys : List A) → at ≡ length xs → slice at n (xs ++ ys) ≡ take n ys
  slice-append_right at n xs ys e = rw e (ap (take n) (drop-append xs ys))

-- `buf.writeUInt…LE(n)` in `width` bytes, and the number that `buf.readUInt…LE` reads
abbrev pub to_le : ℕ → ℕ → List ℕ
to_le zero n = []
to_le (suc width) n = (n % 256) ∷ to_le width (n / 256)

abbrev pub of_le : List ℕ → ℕ
of_le [] = 0
of_le (b ∷ bs) = b + 256 * of_le bs

-- 256 to the power of the width
abbrev pub le_limit : ℕ → ℕ
le_limit zero = 1
le_limit (suc width) = 256 * le_limit width

pub of_le-to_le : (width n : ℕ) → n < le_limit width → of_le (to_le width n) ≡ n
of_le-to_le zero n h = omega arith
of_le-to_le (suc width) n h = omega (arith, of_le-to_le width (n / 256) (omega arith))
