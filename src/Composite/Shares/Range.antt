-- ===== src/Composite/Shares/Range.antt =====
-- src/index.ts: the range of effective shares.
use model_proxy_v.Base.{
  ◌≡◌, refl, Bool, true, false, [], ◌∷◌, Text, or_else, if◌then◌else◌, All, Bool-cases, inl, inr,
  same, same_refl, same→eq, subst,
}
use model_proxy_v.Base.Table.{get, set, All-set, get-set}
use model_proxy_v.Composite.Amounts.{Amounts}
use model_proxy_v.Composite.Shares.{
  composite_share_key, Shares, normalized_share, get_effective_composite_share, decayed, recovered,
  decay_effective_composite_share, is_changed, recover_effective_composite_share,
}

module _ (n : Amounts) where
  open n use {
    Amount, nought, one, at_most, half, tenth, double, at_most_refl, at_most_trans, at_most_total,
    half_le, le_double, tenth_le, zero_tenth,
  }

  -- Between a tenth of `c` and `c`.
  abbrev pub InRange : Amount → Amount → Type 0
  InRange c x = (at_most (tenth c) x ≡ true) × (at_most x c ≡ true)

  -- Every share of the table lies in the range of its configured share.
  abbrev pub AllInRange : (Text → Amount) → Shares n → Type 0
  AllInRange configured shares =
      All (λ (e : Text × Amount). InRange (configured (e.0)) (e.1)) shares

  abbrev pub IsPositive : Amount → Type 0
  IsPositive c = at_most c nought ≡ false

  self-InRange : (c : Amount) → IsPositive c → InRange c c
  self-InRange c h = (tenth_le c (at_most_total c nought h), at_most_refl c)

  InRange-nought : (c x : Amount) → IsPositive c → InRange c x → at_most nought x ≡ true
  InRange-nought c x h r =
      at_most_trans nought (tenth c) x (zero_tenth c (at_most_total c nought h)) (r.0)

  decayed-InRange : (c x : Amount) → IsPositive c → InRange c x → InRange c (decayed n c x)
  unfolding decayed
  decayed-InRange c x h r = elim (Bool-cases (at_most (tenth c) (half x))) [
    | inl e ↦ rw e (e, at_most_trans (half x) x c (half_le x (InRange-nought c x h r)) (r.1))
    | inr e ↦ rw e (at_most_refl (tenth c), tenth_le c (at_most_total c nought h))
  ]

  recovered-InRange : (c x : Amount) → IsPositive c → InRange c x → InRange c (recovered n c x)
  unfolding recovered
  recovered-InRange c x h r = elim (Bool-cases (at_most c (double x))) [
    | inl e ↦ rw e (self-InRange c h)
    | inr e ↦ rw e (
      at_most_trans (tenth c) x (double x) (r.0) (le_double x (InRange-nought c x h r)),
      at_most_total c (double x) e,
    )
  ]

  get-InRange :
      (configured : Text → Amount) (k : Text) (shares : Shares n)
      → IsPositive (configured k)
      → AllInRange configured shares
      → InRange (configured k) (or_else (get k shares) (configured k))
  unfolding get
  get-InRange configured k [] p h = self-InRange (configured k) p
  get-InRange configured k ((j, x) ∷ shares) p (r, h) = elim (Bool-cases (same j k)) [
    | inl e ↦ rw e (subst (λ i. InRange (configured i) x) (same→eq j k e) r)
    | inr e ↦ rw e (get-InRange configured k shares p h)
  ]

  normalized_positive : (c : Amount) → IsPositive c → normalized_share n c ≡ c
  unfolding normalized_share
  normalized_positive c h = rw h

  decayed_le : (c x : Amount) → IsPositive c → InRange c x → at_most (decayed n c x) x ≡ true
  unfolding decayed
  decayed_le c x h r = elim (Bool-cases (at_most (tenth c) (half x))) [
    | inl e ↦ rw e (half_le x (InRange-nought c x h r))
    | inr e ↦ rw e (r.0)
  ]

  recovered_ge : (c x : Amount) → IsPositive c → InRange c x → at_most x (recovered n c x) ≡ true
  unfolding recovered
  recovered_ge c x h r = elim (Bool-cases (at_most c (double x))) [
    | inl e ↦ rw e (r.1)
    | inr e ↦ rw e (le_double x (InRange-nought c x h r))
  ]

  decay_lem :
      (shares : Shares n) (alias target : Text) (c : Amount)
      → IsPositive c
      → decay_effective_composite_share n shares alias target c
        ≡ set
            (composite_share_key alias target)
            (decayed n c (get_effective_composite_share n shares alias target c))
            shares
  unfolding decay_effective_composite_share
  decay_lem shares alias target c h = rw (normalized_positive c h) refl

  recover_lem :
      (shares : Shares n) (alias target : Text) (c : Amount)
      → IsPositive c
      → recover_effective_composite_share n shares alias target c ≡ (
          let before = get_effective_composite_share n shares alias target c in
          if is_changed n (recovered n c before) before
          then set (composite_share_key alias target) (recovered n c before) shares
          else shares)
  unfolding recover_effective_composite_share
  recover_lem shares alias target c h = rw (normalized_positive c h) refl

  get_effective-set :
      (shares : Shares n) (alias target : Text) (c v : Amount)
      → get_effective_composite_share n
          (set (composite_share_key alias target) v shares)
          alias
          target
          c
        ≡ v
  unfolding get_effective_composite_share
  get_effective-set shares alias target c v =
      rw
        (
          get-set (composite_share_key alias target) (composite_share_key alias target) v shares,
          same_refl (composite_share_key alias target),
        )
        refl

  module _ (configured : Text → Amount) (shares : Shares n) (alias target : Text)
      (positive : IsPositive (configured (composite_share_key alias target)))
      (h : AllInRange configured shares) where
    effective-InRange : InRange (configured (composite_share_key alias target)) (
        get_effective_composite_share n shares alias target
          (configured (composite_share_key alias target)))
    unfolding get_effective_composite_share
    effective-InRange = get-InRange configured (composite_share_key alias target) shares positive h

    decay-InRange : AllInRange configured (
        decay_effective_composite_share n shares alias target
          (configured (composite_share_key alias target)))
    decay-InRange =
        rw (decay_lem shares alias target (configured (composite_share_key alias target)) positive)
          (All-set _ (composite_share_key alias target) _ shares h
            (decayed-InRange _ _ positive effective-InRange))

    written-InRange :
        (b : Bool)
        → AllInRange configured (
            if b
            then set
                (composite_share_key alias target)
                (recovered n (configured (composite_share_key alias target)) (
                  get_effective_composite_share n shares alias target
                    (configured (composite_share_key alias target))))
                shares
            else shares)
    written-InRange true =
        All-set _ (composite_share_key alias target) _ shares h
          (recovered-InRange _ _ positive effective-InRange)
    written-InRange false = h

    recover-InRange : AllInRange configured (
        recover_effective_composite_share n shares alias target
          (configured (composite_share_key alias target)))
    recover-InRange =
        rw
          (recover_lem shares alias target (configured (composite_share_key alias target)) positive)
          (written-InRange _)

    decay_at_most :
        at_most
          (get_effective_composite_share n
            (decay_effective_composite_share n shares alias target
              (configured (composite_share_key alias target)))
            alias
            target
            (configured (composite_share_key alias target)))
          (get_effective_composite_share n shares alias target
            (configured (composite_share_key alias target)))
        ≡ true
    decay_at_most =
        rw
          (
            decay_lem shares alias target (configured (composite_share_key alias target)) positive,
            get_effective-set shares alias target (configured (composite_share_key alias target)) (
                decayed n (configured (composite_share_key alias target)) (
                  get_effective_composite_share n shares alias target
                    (configured (composite_share_key alias target)))),
          )
          (decayed_le _ _ positive effective-InRange)

    written_at_least :
        (b : Bool)
        → at_most
            (get_effective_composite_share n shares alias target
              (configured (composite_share_key alias target)))
            (get_effective_composite_share n
              (if b
                then set
                    (composite_share_key alias target)
                    (recovered n (configured (composite_share_key alias target)) (
                      get_effective_composite_share n shares alias target
                        (configured (composite_share_key alias target))))
                    shares
                else shares)
              alias
              target
              (configured (composite_share_key alias target)))
          ≡ true
    written_at_least true =
        rw
          (get_effective-set shares alias target (configured (composite_share_key alias target)) (
            recovered n (configured (composite_share_key alias target)) (
              get_effective_composite_share n shares alias target
                (configured (composite_share_key alias target)))))
          (recovered_ge _ _ positive effective-InRange)
    written_at_least false = at_most_refl _

    recover_at_least :
        at_most
          (get_effective_composite_share n shares alias target
            (configured (composite_share_key alias target)))
          (get_effective_composite_share n
            (recover_effective_composite_share n shares alias target
              (configured (composite_share_key alias target)))
            alias
            target
            (configured (composite_share_key alias target)))
        ≡ true
    recover_at_least =
        rw
          (recover_lem shares alias target (configured (composite_share_key alias target)) positive)
          (written_at_least _)

  -- Let every configured share be positive. A failure and a success of any target keep every effective
  -- share between a tenth of its configured share and the configured share. The share of the target
  -- does not grow by the failure and does not fall by the success.
  pub shares-InRange :
      (configured : Text → Amount) (shares : Shares n) (alias target : Text)
      → ((k : Text) → IsPositive (configured k))
      → AllInRange configured shares
      → let k = composite_share_key alias target in
        let c = configured k in
        let down = decay_effective_composite_share n shares alias target c in
        let up = recover_effective_composite_share n shares alias target c in
        let before = get_effective_composite_share n shares alias target c in
        AllInRange configured down
        × AllInRange configured up
        × (at_most (get_effective_composite_share n down alias target c) before ≡ true)
        × (at_most before (get_effective_composite_share n up alias target c) ≡ true)
  shares-InRange configured shares alias target p h = (
    decay-InRange configured shares alias target (p _) h,
    recover-InRange configured shares alias target (p _) h,
    decay_at_most configured shares alias target (p _) h,
    recover_at_least configured shares alias target (p _) h,
  )
