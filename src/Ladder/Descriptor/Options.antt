-- ===== src/Ladder/Descriptor/Options.antt =====
-- The tests of the optional fields against what the protocol asks of them.
use model_proxy_v.Base.{
  ℕ, zero, suc, ◌≡◌, refl, ◌⊎◌, inl, inr, Bool, true, &&_parts, Bool-cases, List, [], ◌∷◌, Option,
  none, some, Text, includes, all, All, arith,
}
use model_proxy_v.Values.{
  whole, minus, fraction, minus_fraction, infinite, Json, null, bool, num, str, arr, obj, Fields,
  Items, items, is_nonblank, nonblank_text,
}
use model_proxy_v.Ladder.Descriptor.{
  upstream_modes, mode_passes, text_passes, timeout_passes, retry_on_passes, retry_passes,
  is_finite_integer, at,
}

-- A field that is missing, `null`, or satisfies the predicate.
abbrev pub Optional : (Json → Type 0) → Option Json → Type 0
Optional P none = Unit
Optional P (some null) = Unit
Optional P (some v) = P v

abbrev pub IsMode : Json → Type 0
IsMode v = (m : Text) × (v ≡ str m) × (includes m upstream_modes ≡ true)

abbrev pub IsStr : Json → Type 0
IsStr v = (s : Text) × (v ≡ str s)

abbrev pub IsInteger : Json → Type 0
IsInteger v = ((n : ℕ) × (v ≡ num (whole n))) ⊎ ((n : ℕ) × (v ≡ num (minus n)))

abbrev pub IsTimeout : Json → Type 0
IsTimeout v = ((n : ℕ) × (v ≡ num (whole (suc n)))) ⊎ ((n : ℕ) × (v ≡ num (fraction n)))

abbrev pub IsStatuses : Json → Type 0
IsStatuses v = (vs : Items) × (v ≡ arr vs) × All IsInteger (items vs)

abbrev pub IsCount : Json → Type 0
IsCount v = (n : ℕ) × (v ≡ num (whole n))

abbrev pub IsNonblank : Option Json → Type 0
IsNonblank o = (s : Text) × (o ≡ some (str s)) × (is_nonblank s ≡ true)

-- What the protocol asks of an entry.
pub record IsAcceptable (is_url : Text → Bool) (e : Fields) : Type 0 where
  pub target : IsNonblank (at "target" e)
  pub base : IsNonblank (at "base" e)
  pub url : is_url base.0 ≡ true
  pub mode : Optional IsMode (at "mode" e)
  pub key : Optional IsStr (at "key" e)
  pub otac : Optional IsStr (at "otac" e)
  pub transforms : Optional IsStr (at "transforms" e)
  pub timeout : Optional IsTimeout (at "timeout" e)
  pub retry_on : Optional IsStatuses (at "retry_on" e)
  pub retry : Optional IsCount (at "retry" e)

pub IsMode-sound : (o : Option Json) → mode_passes o ≡ true → Optional IsMode o
IsMode-sound none h = tt
IsMode-sound (some null) h = tt
IsMode-sound (some (str m)) h = (m, refl, h)
IsMode-sound (some (bool b)) h = cc
IsMode-sound (some (num n)) h = cc
IsMode-sound (some (arr vs)) h = cc
IsMode-sound (some (obj fs)) h = cc

pub IsStr-sound : (o : Option Json) → text_passes o ≡ true → Optional IsStr o
IsStr-sound none h = tt
IsStr-sound (some null) h = tt
IsStr-sound (some (str m)) h = (m, refl)
IsStr-sound (some (bool b)) h = cc
IsStr-sound (some (num n)) h = cc
IsStr-sound (some (arr vs)) h = cc
IsStr-sound (some (obj fs)) h = cc

pub IsTimeout-sound : (o : Option Json) → timeout_passes o ≡ true → Optional IsTimeout o
IsTimeout-sound none h = tt
IsTimeout-sound (some null) h = tt
IsTimeout-sound (some (num (whole zero))) h = cc
IsTimeout-sound (some (num (whole (suc n)))) h = inl (n, refl)
IsTimeout-sound (some (num (fraction n))) h = inr (n, refl)
IsTimeout-sound (some (num (minus n))) h = cc
IsTimeout-sound (some (num (minus_fraction n))) h = cc
IsTimeout-sound (some (num (infinite b))) h = cc
IsTimeout-sound (some (str m)) h = cc
IsTimeout-sound (some (bool b)) h = cc
IsTimeout-sound (some (arr vs)) h = cc
IsTimeout-sound (some (obj fs)) h = cc

IsInteger-sound : (v : Json) → is_finite_integer v ≡ true → IsInteger v
IsInteger-sound (num (whole n)) h = inl (n, refl)
IsInteger-sound (num (minus n)) h = inr (n, refl)
IsInteger-sound (num (fraction n)) h = cc
IsInteger-sound (num (minus_fraction n)) h = cc
IsInteger-sound (num (infinite b)) h = cc
IsInteger-sound null h = cc
IsInteger-sound (str m) h = cc
IsInteger-sound (bool b) h = cc
IsInteger-sound (arr vs) h = cc
IsInteger-sound (obj fs) h = cc

IsIntegers-sound : (vs : List Json) → all is_finite_integer vs ≡ true → All IsInteger vs
IsIntegers-sound [] h = tt
IsIntegers-sound (v ∷ vs) h =
    let (a, b) = &&_parts (is_finite_integer v) (all is_finite_integer vs) h in
    (IsInteger-sound v a, IsIntegers-sound vs b)

pub IsStatuses-sound : (o : Option Json) → retry_on_passes o ≡ true → Optional IsStatuses o
IsStatuses-sound none h = tt
IsStatuses-sound (some null) h = tt
IsStatuses-sound (some (arr vs)) h = (vs, refl, IsIntegers-sound (items vs) h)
IsStatuses-sound (some (num n)) h = cc
IsStatuses-sound (some (str m)) h = cc
IsStatuses-sound (some (bool b)) h = cc
IsStatuses-sound (some (obj fs)) h = cc

pub IsCount-sound : (o : Option Json) → retry_passes o ≡ true → Optional IsCount o
IsCount-sound none h = tt
IsCount-sound (some null) h = tt
IsCount-sound (some (num (whole n))) h = (n, refl)
IsCount-sound (some (num (minus n))) h = cc
IsCount-sound (some (num (fraction n))) h = cc
IsCount-sound (some (num (minus_fraction n))) h = cc
IsCount-sound (some (num (infinite b))) h = cc
IsCount-sound (some (str m)) h = cc
IsCount-sound (some (bool b)) h = cc
IsCount-sound (some (arr vs)) h = cc
IsCount-sound (some (obj fs)) h = cc

pub nonblank_cases :
    (o : Option Json)
    → (nonblank_text o ≡ none)
      ⊎ ((s : Text) × (o ≡ some (str s)) × (is_nonblank s ≡ true) × (nonblank_text o ≡ some s))
unfolding nonblank_text
nonblank_cases none = inl refl
nonblank_cases (some null) = inl refl
nonblank_cases (some (num n)) = inl refl
nonblank_cases (some (bool b)) = inl refl
nonblank_cases (some (arr vs)) = inl refl
nonblank_cases (some (obj fs)) = inl refl
nonblank_cases (some (str s)) = elim (Bool-cases (is_nonblank s)) [
  | inl e ↦ inr (s, refl, e, rw e)
  | inr e ↦ inl (rw e)
]

str_injective : (s t : Text) → str s ≡ str t → s ≡ t
str_injective s t e = cc

arr_injective : (s t : Items) → arr s ≡ arr t → s ≡ t
arr_injective s t e = cc

pub IsMode-complete : (o : Option Json) → Optional IsMode o → mode_passes o ≡ true
IsMode-complete none h = refl
IsMode-complete (some null) h = refl
IsMode-complete (some (str m)) (m', e, h) = rw (str_injective m m' e) h
IsMode-complete (some (bool b)) h = cc (h.1)
IsMode-complete (some (num n)) h = cc (h.1)
IsMode-complete (some (arr vs)) h = cc (h.1)
IsMode-complete (some (obj fs)) h = cc (h.1)

pub IsStr-complete : (o : Option Json) → Optional IsStr o → text_passes o ≡ true
IsStr-complete none h = refl
IsStr-complete (some null) h = refl
IsStr-complete (some (str m)) h = refl
IsStr-complete (some (bool b)) h = cc (h.1)
IsStr-complete (some (num n)) h = cc (h.1)
IsStr-complete (some (arr vs)) h = cc (h.1)
IsStr-complete (some (obj fs)) h = cc (h.1)

pub IsTimeout-complete : (o : Option Json) → Optional IsTimeout o → timeout_passes o ≡ true
IsTimeout-complete none h = refl
IsTimeout-complete (some null) h = refl
IsTimeout-complete (some (num (whole zero))) h = ground arith
IsTimeout-complete (some (num (whole (suc n)))) h = refl
IsTimeout-complete (some (num (fraction n))) h = refl
IsTimeout-complete (some (num (minus n))) h = ground arith
IsTimeout-complete (some (num (minus_fraction n))) h = ground arith
IsTimeout-complete (some (num (infinite b))) h = ground arith
IsTimeout-complete (some (bool b)) h = ground arith
IsTimeout-complete (some (str m)) h = ground arith
IsTimeout-complete (some (arr vs)) h = ground arith
IsTimeout-complete (some (obj fs)) h = ground arith

IsInteger-complete : (v : Json) → IsInteger v → is_finite_integer v ≡ true
IsInteger-complete v (inl (n, e)) = rw e
IsInteger-complete v (inr (n, e)) = rw e

IsIntegers-complete : (vs : List Json) → All IsInteger vs → all is_finite_integer vs ≡ true
IsIntegers-complete [] h = refl
IsIntegers-complete (v ∷ vs) (a, b) = rw (IsInteger-complete v a, IsIntegers-complete vs b)

pub IsStatuses-complete : (o : Option Json) → Optional IsStatuses o → retry_on_passes o ≡ true
IsStatuses-complete none h = refl
IsStatuses-complete (some null) h = refl
IsStatuses-complete (some (arr vs)) (vs', e, h) =
    IsIntegers-complete (items vs) (rw (arr_injective vs vs' e) h)
IsStatuses-complete (some (bool b)) h = cc (h.1)
IsStatuses-complete (some (str m)) h = cc (h.1)
IsStatuses-complete (some (num n)) h = cc (h.1)
IsStatuses-complete (some (obj fs)) h = cc (h.1)

pub IsCount-complete : (o : Option Json) → Optional IsCount o → retry_passes o ≡ true
IsCount-complete none h = refl
IsCount-complete (some null) h = refl
IsCount-complete (some (num (whole n))) h = refl
IsCount-complete (some (num (minus n))) h = cc (h.1)
IsCount-complete (some (num (minus_fraction n))) h = cc (h.1)
IsCount-complete (some (num (infinite b))) h = cc (h.1)
IsCount-complete (some (num (fraction n))) h = cc (h.1)
IsCount-complete (some (bool b)) h = cc (h.1)
IsCount-complete (some (str m)) h = cc (h.1)
IsCount-complete (some (arr vs)) h = cc (h.1)
IsCount-complete (some (obj fs)) h = cc (h.1)
