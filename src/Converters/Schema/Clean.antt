-- ===== src/Converters/Schema/Clean.antt =====
-- What a cleaned schema holds no more.
use model_proxy_v.Base.{
  Bool, true, false, ◌&&◌, Text, codes, same, Bool-cases, if◌then◌else◌, ◌≡◌, refl, sym, ap, subst,
  inl, inr,
}
use model_proxy_v.Values.{
  Json, null, bool, num, str, arr, obj, Items, nil, cons, Fields, end, field, prop, delete_prop,
  prop-delete_prop,
}
use model_proxy_v.Converters.Schema.{
  is_dropped, is_unsupported, is_string_type, drop_format, keep_field, recursively_clean_schema,
  clean_items, clean_fields,
}

-- A format that the target knows, where the type is `string`.
abbrev pub HasKnownFormat : Fields → Type 0
HasKnownFormat fs =
    (is_string_type (prop (codes "type") fs) && is_unsupported (prop (codes "format") fs)) ≡ false

unfoldable mutual
  -- No dropped key and no unknown format of a string, at any depth.
  pub IsClean : Json → Type 0
  IsClean null = Unit
  IsClean (bool b) = Unit
  IsClean (num n) = Unit
  IsClean (str s) = Unit
  IsClean (arr vs) = AreClean vs
  IsClean (obj fs) = HasKnownFormat fs × HasCleanFields fs

  pub AreClean : Items → Type 0
  AreClean nil = Unit
  AreClean (cons v vs) = IsClean v × AreClean vs

  pub HasCleanFields : Fields → Type 0
  HasCleanFields end = Unit
  HasCleanFields (field key v fs) = (is_dropped key ≡ false) × IsClean v × HasCleanFields fs

HasCleanFields-delete_prop :
    (k : Text) (fs : Fields) → HasCleanFields fs → HasCleanFields (delete_prop k fs)
unfolding delete_prop IsClean
HasCleanFields-delete_prop k end h = tt
HasCleanFields-delete_prop k (field key v fs) (d, c, h) = elim (Bool-cases (same key k)) [
  | inl e ↦ rw e (HasCleanFields-delete_prop k fs h)
  | inr e ↦ rw e (d, c, HasCleanFields-delete_prop k fs h)
]

and-false : (b : Bool) → (b && false) ≡ false
and-false true = refl
and-false false = refl

HasKnownFormat-delete_prop : (fs : Fields) → HasKnownFormat (delete_prop (codes "format") fs)
unfolding same
HasKnownFormat-delete_prop fs =
    rw (prop-delete_prop (codes "format") (codes "format") fs)
      (and-false (is_string_type (prop (codes "type") (delete_prop (codes "format") fs))))

drop_format-clean :
    (fs : Fields)
    → HasCleanFields fs
    → HasKnownFormat (drop_format fs) × HasCleanFields (drop_format fs)
unfolding drop_format
drop_format-clean fs h =
    elim (Bool-cases
      (is_string_type (prop (codes "type") fs) && is_unsupported (prop (codes "format") fs))) [
        | inl e ↦
            rw e (HasKnownFormat-delete_prop fs, HasCleanFields-delete_prop (codes "format") fs h)
        | inr e ↦
            subst
              (λ (b : Bool).
                HasKnownFormat (if b then delete_prop (codes "format") fs else fs)
                × HasCleanFields (if b then delete_prop (codes "format") fs else fs))
              (sym e) (e, h)
      ]

drop_format_known : (fs : Fields) → HasKnownFormat fs → drop_format fs ≡ fs
unfolding drop_format
drop_format_known fs h = rw h refl

keep_field-clean :
    (key : Text) (v : Json) (fs : Fields)
    → IsClean v
    → HasCleanFields fs
    → HasCleanFields (keep_field key v fs)
unfolding IsClean
keep_field-clean key v fs c h = elim (Bool-cases (is_dropped key)) [
  | inl e ↦ rw e h
  | inr e ↦
      subst (λ (b : Bool). HasCleanFields (if b then fs else field key v fs)) (sym e) (e, c, h)
]

mutual
  unfolding recursively_clean_schema IsClean

  cleaned : (j : Json) → IsClean (recursively_clean_schema j)
  cleaned null = tt
  cleaned (bool b) = tt
  cleaned (num n) = tt
  cleaned (str s) = tt
  cleaned (arr vs) = cleaned_items vs
  cleaned (obj fs) = drop_format-clean (clean_fields fs) (cleaned_fields fs)

  cleaned_items : (vs : Items) → AreClean (clean_items vs)
  cleaned_items nil = tt
  cleaned_items (cons v vs) = (cleaned v, cleaned_items vs)

  cleaned_fields : (fs : Fields) → HasCleanFields (clean_fields fs)
  cleaned_fields end = tt
  cleaned_fields (field key v fs) =
      keep_field-clean key (recursively_clean_schema v) (clean_fields fs) (cleaned v)
        (cleaned_fields fs)

mutual
  unfolding recursively_clean_schema IsClean

  unchanged : (j : Json) → IsClean j → recursively_clean_schema j ≡ j
  unchanged null h = refl
  unchanged (bool b) h = refl
  unchanged (num n) h = refl
  unchanged (str s) h = refl
  unchanged (arr vs) h = ap arr (unchanged_items vs h)
  unchanged (obj fs) (known, h) = rw (unchanged_fields fs h) (ap obj (drop_format_known fs known))

  unchanged_items : (vs : Items) → AreClean vs → clean_items vs ≡ vs
  unchanged_items nil h = refl
  unchanged_items (cons v vs) (c, h) = rw (unchanged v c, unchanged_items vs h) refl

  unchanged_fields : (fs : Fields) → HasCleanFields fs → clean_fields fs ≡ fs
  unchanged_fields end h = refl
  unchanged_fields (field key v fs) (d, c, h) = rw (d, unchanged v c, unchanged_fields fs h) refl

-- A cleaned schema holds at no depth a key `$schema` or `additionalProperties`, nor an unknown format of
-- a string; and cleaning it again changes nothing.
pub recursively_clean_schema-IsClean :
    (j : Json)
    → IsClean (recursively_clean_schema j)
      × (recursively_clean_schema (recursively_clean_schema j) ≡ recursively_clean_schema j)
recursively_clean_schema-IsClean j = (cleaned j, unchanged (recursively_clean_schema j) (cleaned j))
