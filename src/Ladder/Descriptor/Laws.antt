-- ===== src/Ladder/Descriptor/Laws.antt =====
-- Which entries pass the checks, and what their descriptors hold.
use model_proxy_v.Base.{
  ◌+◌, ◌≡◌, ◌↔◌, refl, sym, ap, subst, ◌∙◌, inl, inr, Bool, true, false, not, ◌&&◌, Bool-cases,
  Option-cases, List, [], ◌∷◌, Option, none, some, some_injective, map, keep, Text, includes,
  length, All, arith, if◌then◌else◌,
}
use model_proxy_v.Values.{
  Number, Json, null, bool, num, str, arr, obj, Fields, is_finite, is_positive, is_nonblank,
  nonblank_text, as_number,
}
use model_proxy_v.Ladder.Descriptor.{
  upstream_modes, Descriptor, Reason, mode_passes, text_passes, timeout_passes, retry_on_passes,
  retry_passes, at, validate_options, validate_entry, to_descriptor, Validated,
  validate_descriptor_entries,
}
use model_proxy_v.Ladder.Descriptor.Options.{
  IsNonblank, IsAcceptable, IsMode-sound, IsStr-sound, IsTimeout-sound, IsStatuses-sound,
  IsCount-sound, IsMode-complete, IsStr-complete, IsTimeout-complete, IsStatuses-complete,
  IsCount-complete, nonblank_cases,
}

-- An entry whose options pass.
record Passes (e : Fields) : Type 0 where
  mode : mode_passes (at "mode" e) ≡ true
  key : text_passes (at "key" e) ≡ true
  otac : text_passes (at "otac" e) ≡ true
  transforms : text_passes (at "transforms" e) ≡ true
  timeout : timeout_passes (at "timeout" e) ≡ true
  retry_on : retry_on_passes (at "retry_on" e) ≡ true
  retry : retry_passes (at "retry" e) ≡ true

check_passes :
    (b : Bool) (r : Reason) (rest : Option Reason)
    → (if not b then some r else rest) ≡ none
    → (b ≡ true) × (rest ≡ none)
check_passes true r rest h = (refl, h)
check_passes false r rest h = cc

validate_options-Passes : (e : Fields) → validate_options e ≡ none → Passes e
unfolding validate_options
validate_options-Passes e h =
    let (mode, h) = check_passes _ _ _ h in
    let (key, h) = check_passes _ _ _ h in
    let (otac, h) = check_passes _ _ _ h in
    let (transforms, h) = check_passes _ _ _ h in
    let (timeout, h) = check_passes _ _ _ h in
    let (retry_on, h) = check_passes _ _ _ h in
    let (retry, h) = check_passes _ _ _ h in
    record {
      mode = mode;
      key = key;
      otac = otac;
      transforms = transforms;
      timeout = timeout;
      retry_on = retry_on;
      retry = retry;
    }

validate_options_of_Passes : (e : Fields) → Passes e → validate_options e ≡ none
unfolding validate_options
validate_options_of_Passes e p =
    rw (p.mode, p.key, p.otac, p.transforms, p.timeout, p.retry_on, p.retry)

abbrev pub is_clear : Option Reason → Bool
is_clear none = true
is_clear (some r) = false

module _ (is_url : Text → Bool) where
  validate_entry-Passes :
      (e : Fields)
      → validate_entry is_url e ≡ none
      → (target : IsNonblank (at "target" e)) × (base : IsNonblank (at "base" e)) × (is_url base.0
          ≡ true)
        × Passes e
  unfolding validate_entry
  validate_entry-Passes e h = elim (nonblank_cases (at "target" e)) [
    | inl missing ↦ cc (rw (missing, validate_entry) at h)
    | inr (t, at_t, filled_t, got_t) ↦ elim (nonblank_cases (at "base" e)) [
      | inl missing ↦ cc (rw (got_t, missing, validate_entry) at h)
      | inr (b, at_b, filled_b, got_b) ↦ elim (Bool-cases (is_url b)) [
        | inr bad ↦ cc (rw (got_t, got_b, bad, validate_entry) at h)
        | inl good ↦ (
          (t, at_t, filled_t),
          (b, at_b, filled_b),
          good,
          validate_options-Passes e (rw (got_t, got_b, good, validate_entry) at h),
        )
      ]
    ]
  ]

  nonblank_of : (o : Option Json) (n : IsNonblank o) → nonblank_text o ≡ some n.0
  unfolding nonblank_text
  nonblank_of o (s, e, f) = rw (e, f)

  validate_entry_complete : (e : Fields) → IsAcceptable is_url e → validate_entry is_url e ≡ none
  unfolding validate_entry
  validate_entry_complete e a =
      rw (nonblank_of _ a.target, nonblank_of _ a.base, a.url, validate_entry)
        (validate_options_of_Passes e (record {
          mode = IsMode-complete _ a.mode;
          key = IsStr-complete _ a.key;
          otac = IsStr-complete _ a.otac;
          transforms = IsStr-complete _ a.transforms;
          timeout = IsTimeout-complete _ a.timeout;
          retry_on = IsStatuses-complete _ a.retry_on;
          retry = IsCount-complete _ a.retry;
        }))

  validate_entry_sound : (e : Fields) → validate_entry is_url e ≡ none → IsAcceptable is_url e
  validate_entry_sound e h =
      let (t, b, u, p) = validate_entry-Passes e h in
      record {
        target = t;
        base = b;
        url = u;
        mode = IsMode-sound _ p.mode;
        key = IsStr-sound _ p.key;
        otac = IsStr-sound _ p.otac;
        transforms = IsStr-sound _ p.transforms;
        timeout = IsTimeout-sound _ p.timeout;
        retry_on = IsStatuses-sound _ p.retry_on;
        retry = IsCount-sound _ p.retry;
      }

  -- An entry passes exactly when its target and base are non-blank texts, its base is a URL, and
  -- each other field is missing, `null`, or of the form that the protocol asks for: a known mode, a
  -- text, a positive finite number, an array of integers, a non-negative integer.
  pub validate_entry_iff : (e : Fields) → (validate_entry is_url e ≡ none) ↔ IsAcceptable is_url e
  validate_entry_iff e = (validate_entry_sound e, validate_entry_complete e)

  -- What a rung may rely on.
  pub record IsWellFormed (d : Descriptor) : Type 0 where
    pub target : is_nonblank d.target ≡ true
    pub base : is_url d.base ≡ true
    pub mode : (m : Text) → d.mode ≡ some m → includes m upstream_modes ≡ true
    pub timeout : (n : Number) → d.timeout ≡ some n → (is_finite n && is_positive n) ≡ true

  mode_WellFormed :
      (o : Option Json)
      → mode_passes o ≡ true
      → (m : Text) → nonblank_text o ≡ some m
      → includes m upstream_modes ≡ true
  mode_WellFormed o h m e = elim (nonblank_cases o) [
    | inl missing ↦ cc (missing, e)
    | inr (s, at_o, f, got) ↦
        let same_text : s ≡ m = some_injective (sym got ∙ e) in
        subst (λ t. includes t upstream_modes ≡ true) same_text (rw at_o at h)
  ]

  timeout_WellFormed :
      (o : Option Json)
      → timeout_passes o ≡ true
      → (n : Number) → as_number o ≡ some n
      → (is_finite n && is_positive n) ≡ true
  timeout_WellFormed (some (num n)) h k e =
      subst (λ t. (is_finite t && is_positive t) ≡ true) (some_injective e) h
  timeout_WellFormed none h n e = cc
  timeout_WellFormed (some null) h n e = cc
  timeout_WellFormed (some (str m)) h n e = cc
  timeout_WellFormed (some (bool b)) h n e = cc
  timeout_WellFormed (some (arr vs)) h n e = cc
  timeout_WellFormed (some (obj fs)) h n e = cc

  to_descriptor-IsWellFormed :
      (e : Fields) → validate_entry is_url e ≡ none → IsWellFormed (to_descriptor e)
  unfolding to_descriptor
  to_descriptor-IsWellFormed e h =
      let (t, b, u, p) = validate_entry-Passes e h in
      record {
        target = rw t.1 t.2;
        base = rw b.1 u;
        mode = mode_WellFormed _ p.mode;
        timeout = timeout_WellFormed _ p.timeout;
      }

  abbrev pub accepts : Fields → Bool
  accepts e = is_clear (validate_entry is_url e)

  -- How entries are divided into descriptors and dropped ones.
  pub record IsSorted (es : List Fields) (v : Validated) : Type 0 where
    pub well_formed : All IsWellFormed v.valid
    pub reasons : All (λ p. validate_entry is_url p.0 ≡ some p.1) v.dropped
    pub count : length v.valid + length v.dropped ≡ length es
    pub order : v.valid ≡ map to_descriptor (keep accepts es)

  -- For any entries: the descriptors of validateDescriptorEntries are those of the entries that pass the
  -- checks, in their order, and all are well formed; every other entry is dropped with the reason that
  -- its check gives, and no entry is lost.
  pub validate_descriptor_entries-IsSorted :
      (es : List Fields) → IsSorted es (validate_descriptor_entries is_url es)
  unfolding validate_descriptor_entries
  validate_descriptor_entries-IsSorted [] = record {
    well_formed = tt;
    reasons = tt;
    count = refl;
    order = refl;
  }
  validate_descriptor_entries-IsSorted (e ∷ es) =
      let ih = validate_descriptor_entries-IsSorted es in
      elim (Option-cases (validate_entry is_url e)) [
        | inl fine ↦
            rw (fine, validate_descriptor_entries)
              (record {
                well_formed = (to_descriptor-IsWellFormed e fine, ih.well_formed);
                reasons = ih.reasons;
                count = omega (arith, ih.count);
                order =
                    let fit : accepts e ≡ true = ap is_clear fine in
                    rw fit (ap (◌∷◌ (to_descriptor e)) ih.order);
              })
        | inr (r, bad) ↦
            rw (bad, validate_descriptor_entries)
              (record {
                well_formed = ih.well_formed;
                reasons = (bad, ih.reasons);
                count = omega (arith, ih.count);
                order = let unfit : accepts e ≡ false = ap is_clear bad in rw unfit ih.order;
              })
      ]
