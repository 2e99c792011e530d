-- ===== src/Base/Texts.antt =====
-- Texts as lists of UTF-16 code units, which is what a string of the source is.
use Prim.Native.Nat.{ℕ, ◌+◌, ◌-◌, ◌*◌}
use Prim.Native.Char.{code}
use Prim.Native.String.{String}
use mathlib.Core.Path.{◌≡◌, refl, sym, ap, ◌∙◌}
use mathlib.Core.Logic.{◌↔◌, inl, inr}
use mathlib.Core.Bool.{Bool, true, false, ◌&&◌, ◌||◌}
use mathlib.Core.List.{map-append, append-nil, ◌++◌, map, List, [], ◌∷◌, reverse}
use native.Mathlib.Omega.{arith}
use model_proxy_v.Base.Tests.{Bool-cases, &&_parts, ==_iff, ◌==◌, leb, if◌then◌else◌}
use model_proxy_v.Base.Lists.{any}

abbrev pub Text : Type 0
Text = List ℕ

-- The code units of a literal in the basic plane.
abbrev pub codes : String → Text
codes String.[] = []
codes (String.◌∷◌ c s) = code c ∷ codes s

-- `a === b`
unfoldable pub same : Text → Text → Bool
same [] [] = true
same (c ∷ s) (d ∷ t) = c == d && same s t
same _ _ = false

pub same_refl : (s : Text) → same s s ≡ true
unfolding same
same_refl [] = refl
same_refl (c ∷ s) = ground (arith, same_refl s)

pub same→eq : (s t : Text) → same s t ≡ true → s ≡ t
unfolding same
same→eq [] [] h = refl
same→eq (c ∷ s) (d ∷ t) h = ground (arith, same→eq s t)
same→eq [] (d ∷ t) h = cc
same→eq (c ∷ s) [] h = cc

pub eq→same : (s t : Text) → s ≡ t → same s t ≡ true
eq→same s t e = rw e (same_refl t)

pub same_iff : (s t : Text) → (same s t ≡ true) ↔ (s ≡ t)
same_iff s t = (same→eq s t, eq→same s t)

pub same-false_sym : (s t : Text) → same s t ≡ false → same t s ≡ false
same-false_sym s t h = ground (arith, same_iff s t, same_iff t s)

-- `xs.includes(s)`
abbrev pub includes : Text → List Text → Bool
includes s xs = any (same s) xs

-- `s.startsWith(p)`
unfoldable pub starts_with : Text → Text → Bool
starts_with p [] = same p []
starts_with [] (c ∷ s) = true
starts_with (d ∷ p) (c ∷ s) = d == c && starts_with p s

-- `s.endsWith(p)`
unfoldable pub ends_with : Text → Text → Bool
ends_with p [] = same p []
ends_with p (c ∷ s) = same p (c ∷ s) || ends_with p s

-- `s.includes(p)`
unfoldable pub contains : Text → Text → Bool
unfolding starts_with same
contains p [] = same p []
contains p (c ∷ s) = starts_with p (c ∷ s) || contains p s

abbrev pub is_digit : ℕ → Bool
is_digit c = leb b'0' c && leb c b'9'

-- `parseInt(s, 10)` of a text of digits, behind the digits read so far
unfoldable pub parse_digits : ℕ → Text → ℕ
parse_digits n [] = n
parse_digits n (c ∷ cs) = parse_digits (10 * n + (c - b'0')) cs

-- White space of `trim`.
abbrev pub is_space : ℕ → Bool
is_space c =
    (leb 9 c && leb c 13)
    || (c == 32 || c == 160)
    || (c == 0x1680 || (leb 0x2000 c && leb c 0x200a))
    || (c == 0x2028 || c == 0x2029)
    || (c == 0x202f || c == 0x205f)
    || (c == 0x3000 || c == 0xfeff)

unfoldable pub trim_left : Text → Text
trim_left [] = []
trim_left (c ∷ s) = let rest = trim_left s in if is_space c then rest else c ∷ s

-- `s.trim()`
unfoldable pub trim : Text → Text
unfolding trim_left
trim s = reverse (trim_left (reverse (trim_left s)))

-- An ASCII letter in lower case; other code units stay.
abbrev pub fold_case : ℕ → ℕ
fold_case c = if leb b'A' c && leb c b'Z' then c + 32 else c

-- `s.toLowerCase()` of an ASCII text, and what the flag `i` of a pattern compares by.
unfoldable pub to_lower_case : Text → Text
to_lower_case s = map fold_case s

pub to_lower_case-append :
    (s t : Text) → to_lower_case (s ++ t) ≡ to_lower_case s ++ to_lower_case t
unfolding to_lower_case
to_lower_case-append s t = map-append fold_case s t

abbrev pub add_to_first : ℕ → List Text → List Text
add_to_first c [] = (c ∷ []) ∷ []
add_to_first c (p ∷ ps) = (c ∷ p) ∷ ps

-- `s.split(c)`
unfoldable pub split_on : ℕ → Text → List Text
split_on c [] = [] ∷ []
split_on c (d ∷ s) = let rest = split_on c s in if d == c then [] ∷ rest else add_to_first d rest

-- `parts.join(c)`
unfoldable pub join_with : ℕ → List Text → Text
join_with c [] = []
join_with c (p ∷ []) = p
join_with c (p ∷ q ∷ ps) = p ++ (c ∷ join_with c (q ∷ ps))

pub starts_with-append : (p s : Text) → starts_with p (p ++ s) ≡ true
unfolding starts_with same
starts_with-append [] [] = refl
starts_with-append [] (c ∷ s) = refl
starts_with-append (d ∷ p) s = ground (arith, starts_with-append p s)

pub starts_with_split : (p s : Text) → starts_with p s ≡ true → (t : Text) × (s ≡ p ++ t)
unfolding starts_with
starts_with_split p [] h = ([], sym (same→eq p [] h) ∙ sym (append-nil p))
starts_with_split [] (c ∷ s) h = (c ∷ s, refl)
starts_with_split (d ∷ p) (c ∷ s) h =
    let (same_head, rest) = &&_parts (d == c) (starts_with p s) h in
    let (t, e) = starts_with_split p s rest in (t, cc ((==_iff d c).0 same_head, e))

pub ends_with-append : (s p : Text) → ends_with p (s ++ p) ≡ true
unfolding ends_with same
ends_with-append [] [] = refl
ends_with-append [] (c ∷ p) = rw (same_refl (c ∷ p))
ends_with-append (c ∷ s) p = ground (arith, ends_with-append s p)

pub ends_with_split : (p s : Text) → ends_with p s ≡ true → (t : Text) × (s ≡ t ++ p)
unfolding ends_with
ends_with_split p [] h = ([], sym (same→eq p [] h))
ends_with_split p (c ∷ s) h = elim (Bool-cases (same p (c ∷ s))) [
  | inl e ↦ ([], sym (same→eq p (c ∷ s) e))
  | inr e ↦ let (t, e') = ends_with_split p s (ground arith) in (c ∷ t, ap (◌∷◌ c) e')
]

contains_of_starts_with : (p s : Text) → starts_with p s ≡ true → contains p s ≡ true
unfolding contains starts_with
contains_of_starts_with p [] h = h
contains_of_starts_with p (c ∷ s) h = ground arith

-- A text that begins with `p`, at the start or behind anything, contains it.
pub contains-append : (p s t : Text) → contains p (s ++ (p ++ t)) ≡ true
unfolding contains
contains-append [] [] [] = same_refl []
contains-append p [] t = contains_of_starts_with p (p ++ t) (starts_with-append p t)
contains-append p (c ∷ s) t = ground (arith, contains-append p s t)
