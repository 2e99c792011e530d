-- ===== src/Composite/Dispatch/Tests.antt =====
-- A dispatch whose first attempt fails and whose second one answers.
use model_proxy_v.Base.{
  ℕ, zero, suc, ◌≡◌, refl, true, false, List, [], ◌∷◌, some, none, Text, codes, All,
}
use model_proxy_v.Errors.{rate_limit_error, proxy}
use model_proxy_v.Ladder.Outcome.{Response, absent, Answer, returned, threw}
use model_proxy_v.Ladder.Run.{replies}
use model_proxy_v.Composite.Amounts.{whole_amounts}
use model_proxy_v.Composite.Shares.{composite_share_key}
use model_proxy_v.Composite.Shares.Range.{AllInRange}
use model_proxy_v.Composite.Dispatch.{Attempt, State, dispatch, ranked_target}
use model_proxy_v.Composite.Dispatch.Laws.{Ends, dispatch-Ends}
use model_proxy_v.Composite.Dispatch.Range.{AttemptIsConfigured, dispatch-InRange}

abbrev fast : Text
fast = codes "fast"

abbrev main : Attempt ℕ
main = record {
  model_id = codes "glm-4";
  composite_target_name = codes "glm";
  composite_target_config = some (record { share = some 40; primary = true; fallback = none });
}

abbrev spare : Attempt ℕ
spare = record {
  model_id = codes "kimi-2";
  composite_target_name = codes "kimi";
  composite_target_config = some (record { share = some 40; primary = false; fallback = some 1 });
}

abbrev answer : Response
answer = record { status = 200; retry_after = absent; body = codes "{}" }

abbrev world : ℕ → Answer
world zero = threw (proxy (rate_limit_error (codes "busy")))
world (suc i) = returned answer

abbrev start : State whole_amounts fast
start = record {
  shares = [];
  failed_model_id = none;
  model_failure_recorded = false;
  failures = [];
}

decayed_and_answered : dispatch whole_amounts fast world 0 main (spare ∷ []) start ≡ (
  replies answer,
  record {
    shares = (composite_share_key fast (codes "glm"), 20) ∷ [];
    failed_model_id = some (codes "glm-4");
    model_failure_recorded = true;
    failures = codes "glm-4" ∷ [];
  },
)
unfolding dispatch model_proxy_v.Composite.Dispatch.on_success ranked_target
    model_proxy_v.Composite.Order.is_fallback
    model_proxy_v.Composite.Shares.recover_effective_composite_share
    model_proxy_v.Composite.Dispatch.on_failure model_proxy_v.Composite.Shares.normalized_share
    model_proxy_v.Composite.Dispatch.classified
    model_proxy_v.Composite.Shares.get_configured_composite_share model_proxy_v.Base.Table.get
    model_proxy_v.Composite.Shares.decay_effective_composite_share model_proxy_v.Base.Table.set
    model_proxy_v.Base.same composite_share_key
decayed_and_answered = refl

dispatch-Ends_example :
    Ends whole_amounts fast world 0
      (main ∷ spare ∷ [])
      []
      (dispatch whole_amounts fast world 0 main (spare ∷ []) start)
dispatch-Ends_example = dispatch-Ends whole_amounts fast world 0 main (spare ∷ []) start

both_configured : All (AttemptIsConfigured whole_amounts fast (λ k. 40)) (main ∷ spare ∷ [])
unfolding ranked_target model_proxy_v.Composite.Shares.get_configured_composite_share
    model_proxy_v.Composite.Order.is_fallback
both_configured = (refl, (refl, tt))

dispatch-InRange_example :
    AllInRange whole_amounts
      (λ k. 40)
      (((dispatch whole_amounts fast world 0 main (spare ∷ []) start).1).shares)
dispatch-InRange_example =
    dispatch-InRange whole_amounts fast (λ k. 40) (λ k. refl) world 0 main (spare ∷ []) start
      both_configured tt
