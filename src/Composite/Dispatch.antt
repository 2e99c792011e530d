-- ===== src/Composite/Dispatch.antt =====
-- src/index.ts, the loop over `compositeAttempts`. `run i` is what `runAttempt` does with attempt `i`. Log
-- lines, the timing and the rewriting of the response (CORS, restored values) are left out.
pub mod Laws
pub mod Range
pub mod Tests
use model_proxy_v.Base.{
  ℕ, suc, Bool, true, ◌&&◌, ◌||◌, List, [], ◌∷◌, ◌++◌, Option, none, some, Text, if◌then◌else◌,
}
use model_proxy_v.Values.{is_filled}
use model_proxy_v.Errors.{ProxyError, Thrown, proxy, plain, classify_transport_error}
use model_proxy_v.Ladder.Outcome.{Answer, returned, threw}
use model_proxy_v.Ladder.Run.{Reply, replies, raises}
use model_proxy_v.Composite.Amounts.{Amounts}
use model_proxy_v.Composite.Shares.{
  CompositeTargetConfig, Shares, get_configured_composite_share, decay_effective_composite_share,
  recover_effective_composite_share,
}
use model_proxy_v.Composite.Order.{is_fallback}

pub record Attempt (A : Type 0) : Type 0 where
  pub model_id : Text
  pub composite_target_name : Text
  pub composite_target_config : Option (CompositeTargetConfig A)

-- The error as a ClaudeProxyError, if it is one or a transport error.
unfoldable pub classified : Thrown → Option ProxyError
classified (proxy e) = some e
classified (plain e) = classify_transport_error (plain e)

module _ (n : Amounts) (alias : Text) where
  open n use {Amount}

  -- The variables that the loop writes: the shares, `failedModelId`, `modelFailureRecorded`, and the
  -- calls of `recordModelFailedRequest`.
  pub record State : Type 0 where
    pub shares : Shares n
    pub failed_model_id : Option Text
    pub model_failure_recorded : Bool
    pub failures : List Text

  unfoldable pub is_ranked : CompositeTargetConfig Amount → Bool
  is_ranked c = c.primary || is_fallback n c

  -- The target whose share an attempt is to change: its name and its configured share. The names are
  -- tested as conditions.
  unfoldable pub ranked_target : Attempt Amount → Option (Text × Amount)
  unfolding is_ranked
  ranked_target a = elim (a.composite_target_config) [
    | none ↦ none
    | some c ↦
        if (is_filled alias && is_filled (a.composite_target_name)) && is_ranked c
        then some (a.composite_target_name, get_configured_composite_share n c)
        else none
  ]

  unfoldable pub on_success : Attempt Amount → State → State
  on_success a s = elim (ranked_target a) [
    | none ↦ s
    | some (target, configured) ↦ record s {
      shares = recover_effective_composite_share n (s.shares) alias target configured;
    }
  ]

  unfoldable pub record_failure : Attempt Amount → State → State
  record_failure a s =
      if is_filled (a.model_id)
      then record s {
        failed_model_id = some (a.model_id);
        failures = s.failures ++ (a.model_id ∷ []);
        model_failure_recorded = true;
      }
      else s

  unfoldable pub penalize : Option ProxyError → Option (Text × Amount) → State → State
  penalize none target s = s
  penalize (some e) none s = s
  penalize (some e) (some (target, configured)) s = record s {
    shares = decay_effective_composite_share n (s.shares) alias target configured;
  }

  unfoldable pub on_failure : Attempt Amount → Thrown → State → State
  unfolding record_failure penalize
  on_failure a e s = penalize (classified e) (ranked_target a) (record_failure a s)

  -- Attempt `i` is `a`, and `rest` follow it.
  unfoldable pub dispatch :
      (ℕ → Answer) → ℕ → Attempt Amount → List (Attempt Amount) → State → Reply × State
  dispatch run i a [] s = elim (run i) [
    | returned r ↦ (replies r, on_success a s)
    | threw e ↦ (raises e, on_failure a e s)
  ]
  dispatch run i a (b ∷ rest) s = elim (run i) [
    | returned r ↦ (replies r, on_success a s)
    | threw e ↦ dispatch run (suc i) b rest (on_failure a e s)
  ]
