-- ===== src/Values.antt =====
-- The values that `JSON.parse` gives, and the tests that the sources apply to them. A field that an
-- object lacks is `none`, the `undefined` of the language.
use model_proxy_v.Base.{
  ℕ, zero, suc, Bool, true, false, not, ◌&&◌, List, [], ◌∷◌, Option, none, some, Text, same, trim,
  ◌≡◌, refl, ap, same_iff, arith, if◌then◌else◌,
}

-- A number as far as the sources look at it: 0, 1, …; -(n + 1); a value strictly between n and n + 1
-- (or between -(n + 1) and -n); an infinity, which `JSON.parse` gives for 1e999.
pub data Number : Type 0 where
  whole : ℕ → Number
  minus : ℕ → Number
  fraction : ℕ → Number
  minus_fraction : ℕ → Number
  infinite : Bool → Number

mutual
  pub data Json : Type 0 where
    null : Json
    bool : Bool → Json
    num : Number → Json
    str : Text → Json
    arr : Items → Json
    obj : Fields → Json

  pub data Items : Type 0 where
    nil : Items
    cons : Json → Items → Items

  pub data Fields : Type 0 where
    end : Fields
    field : Text → Json → Fields → Fields

abbrev pub items : Items → List Json
items nil = []
items (cons v vs) = v ∷ items vs

-- `o.k`; keys of a parsed object are distinct
unfoldable pub prop : Text → Fields → Option Json
prop k end = none
prop k (field j v fs) = if same j k then some v else prop k fs

-- `o.k = v`: a field that is there keeps its place.
unfoldable pub set_prop : Text → Json → Fields → Fields
set_prop k v end = field k v end
set_prop k v (field j w fs) = if same j k then field j v fs else field j w (set_prop k v fs)

-- `delete o.k`
unfoldable pub delete_prop : Text → Fields → Fields
delete_prop k end = end
delete_prop k (field j w fs) =
    let rest = delete_prop k fs in if same j k then rest else field j w rest

pub prop-set_prop :
    (j k : Text) (v : Json) (fs : Fields)
    → prop j (set_prop k v fs) ≡ (if same k j then some v else prop j fs)
unfolding prop set_prop
prop-set_prop j k v end = refl
prop-set_prop j k v (field i w fs) =
    ground (arith, same_iff k j, same_iff i k, same_iff i j, prop-set_prop j k v fs)

pub prop-delete_prop :
    (j k : Text) (fs : Fields) → prop j (delete_prop k fs) ≡ (if same k j then none else prop j fs)
unfolding prop delete_prop
prop-delete_prop j k end = ground arith
prop-delete_prop j k (field i w fs) =
    ground (arith, same_iff k j, same_iff i k, same_iff i j, prop-delete_prop j k fs)

abbrev pub of_list : List Json → Items
of_list [] = nil
of_list (v ∷ vs) = cons v (of_list vs)

pub items-of_list : (vs : List Json) → items (of_list vs) ≡ vs
items-of_list [] = refl
items-of_list (v ∷ vs) = ap (◌∷◌ v) (items-of_list vs)

-- `v.k`, where `v` may be anything but `undefined` and `null`
abbrev pub member : Text → Json → Option Json
member k (obj fs) = prop k fs
member k _ = none

abbrev pub is_finite : Number → Bool
is_finite (infinite s) = false
is_finite _ = true

abbrev pub is_integer : Number → Bool
is_integer (whole n) = true
is_integer (minus n) = true
is_integer _ = false

-- `n < 0` and `n <= 0`
abbrev pub is_negative : Number → Bool
is_negative (whole n) = false
is_negative (minus n) = true
is_negative (fraction n) = false
is_negative (minus_fraction n) = true
is_negative (infinite positive) = not positive

abbrev pub is_zero : Number → Bool
is_zero (whole zero) = true
is_zero (whole (suc n)) = false
is_zero _ = false

abbrev pub is_positive : Number → Bool
is_positive n = not (is_negative n) && not (is_zero n)

-- `text.length > 0`, and `text` as a condition
abbrev pub is_filled : Text → Bool
is_filled [] = false
is_filled (c ∷ s) = true

-- `s.trim().length > 0`
unfoldable pub is_nonblank : Text → Bool
is_nonblank s = is_filled (trim s)

abbrev pub as_text : Option Json → Option Text
as_text (some (str s)) = some s
as_text _ = none

abbrev pub as_number : Option Json → Option Number
as_number (some (num n)) = some n
as_number _ = none

abbrev pub as_items : Option Json → Option (List Json)
as_items (some (arr vs)) = some (items vs)
as_items _ = none

-- `typeof v === 'string' && v.trim().length > 0`: the text that passes
unfoldable pub nonblank_text : Option Json → Option Text
nonblank_text (some (str s)) = if is_nonblank s then some s else none
nonblank_text _ = none
