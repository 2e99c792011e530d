-- ===== src/Composite/Dispatch/Range.antt =====
-- src/index.ts, the loop over `compositeAttempts`: the effective shares behind it.
use model_proxy_v.Base.{
  ℕ, suc, ◌≡◌, List, [], ◌∷◌, Option, none, some, Text, All, inl, inr, Bool-cases,
}
use model_proxy_v.Values.{is_filled}
use model_proxy_v.Errors.{ProxyError, Thrown}
use model_proxy_v.Ladder.Outcome.{Answer}
use model_proxy_v.Composite.Amounts.{Amounts}
use model_proxy_v.Composite.Shares.{composite_share_key, recover_effective_composite_share}
use model_proxy_v.Composite.Shares.Range.{IsPositive, AllInRange, shares-InRange}
use model_proxy_v.Composite.Dispatch.{
  Attempt, State, ranked_target, on_success, classified, record_failure, penalize, on_failure,
  dispatch,
}
use model_proxy_v.Composite.Dispatch.Laws.{
  Answer-cases, dispatch_returned, dispatch_last, dispatch_next,
}

module _ (n : Amounts) (alias : Text) (configured : Text → n.Amount) where
  open n use {Amount}

  -- The share of a target is the one that the table of configured shares has for it.
  abbrev pub IsConfigured : Option (Text × Amount) → Type 0
  IsConfigured none = Unit
  IsConfigured (some (target, share)) = share ≡ configured (composite_share_key alias target)

  abbrev pub AttemptIsConfigured : Attempt Amount → Type 0
  AttemptIsConfigured a = IsConfigured (ranked_target n alias a)

  module _ (positive : (k : Text) → IsPositive n (configured k)) where
    success-InRange :
        (t : Option (Text × Amount)) (s : State n alias)
        → IsConfigured t
        → AllInRange n configured (s.shares)
        → AllInRange n configured (
            (elim t as (λ _. State n alias) [
              | none ↦ s
              | some (target, share) ↦ record s {
                shares = recover_effective_composite_share n (s.shares) alias target share;
              }
            ]).shares)
    success-InRange none s c h = h
    success-InRange (some (target, share)) s c h =
        rw c ((shares-InRange n configured (s.shares) alias target positive h).1)

    on_success-InRange :
        (a : Attempt Amount) (s : State n alias)
        → AttemptIsConfigured a
        → AllInRange n configured (s.shares)
        → AllInRange n configured ((on_success n alias a s).shares)
    unfolding on_success
    on_success-InRange a s c h = success-InRange (ranked_target n alias a) s c h

    penalize-InRange :
        (e : Option ProxyError) (t : Option (Text × Amount)) (s : State n alias)
        → IsConfigured t
        → AllInRange n configured (s.shares)
        → AllInRange n configured ((penalize n alias e t s).shares)
    unfolding penalize
    penalize-InRange none t s c h = h
    penalize-InRange (some e) none s c h = h
    penalize-InRange (some e) (some (target, share)) s c h =
        rw c ((shares-InRange n configured (s.shares) alias target positive h).0)

    record_failure-InRange :
        (a : Attempt Amount) (s : State n alias)
        → AllInRange n configured (s.shares)
        → AllInRange n configured ((record_failure n alias a s).shares)
    unfolding record_failure
    record_failure-InRange a s h = elim (Bool-cases (is_filled (a.model_id))) [
      | inl e ↦ rw e h
      | inr e ↦ rw e h
    ]

    on_failure-InRange :
        (a : Attempt Amount) (e : Thrown) (s : State n alias)
        → AttemptIsConfigured a
        → AllInRange n configured (s.shares)
        → AllInRange n configured ((on_failure n alias a e s).shares)
    unfolding on_failure
    on_failure-InRange a e s c h =
        penalize-InRange (classified e) (ranked_target n alias a) (record_failure n alias a s) c
          (record_failure-InRange a s h)

    -- Let every configured share be positive, and let each attempt carry the configured share of its
    -- target. Whatever the attempts do, the loop leaves every effective share between a tenth of its
    -- configured share and the configured share, if it was so before.
    pub dispatch-InRange :
        (run : ℕ → Answer) (i : ℕ) (a : Attempt Amount) (rest : List (Attempt Amount))
        (s : State n alias)
        → All AttemptIsConfigured (a ∷ rest)
        → AllInRange n configured (s.shares)
        → AllInRange n configured (((dispatch n alias run i a rest s).1).shares)
    dispatch-InRange run i a [] s (c, cs) h = elim (Answer-cases n alias (run i)) [
      | inl (r, e) ↦ rw (dispatch_returned n alias run i a [] s r e) (on_success-InRange a s c h)
      | inr (x, e) ↦ rw (dispatch_last n alias run i a s x e) (on_failure-InRange a x s c h)
    ]
    dispatch-InRange run i a (b ∷ rest) s (c, cs) h = elim (Answer-cases n alias (run i)) [
      | inl (r, e) ↦
          rw (dispatch_returned n alias run i a (b ∷ rest) s r e) (on_success-InRange a s c h)
      | inr (x, e) ↦ rw (dispatch_next n alias run i a b rest s x e) (
          dispatch-InRange run (suc i) b rest (on_failure n alias a x s) cs
            (on_failure-InRange a x s c h))
    ]
