-- ===== src/Ladder/Outcome/Tests.antt =====
-- Outcomes of concrete failures.
use model_proxy_v.Base.{
  ℕ, ◌≡◌, ◌≤◌, ◌⊎◌, ◌↔◌, refl, true, false, [], Option, none, some, Text, codes, same, contains,
  arith, to_lower_case,
}
use model_proxy_v.Values.{Json}
use model_proxy_v.Errors.{
  PlainError, plain, proxy, classify_plain, classify_transport_error, is_abort,
  handle_target_api_error,
}
use model_proxy_v.Ladder.Outcome.{
  Response, absent, returned, threw, outcome_of, is_retryable_outcome,
}
use model_proxy_v.Ladder.Outcome.Laws.{outcome_of_upstream_failure}

abbrev refused : PlainError
refused = record {
  name = codes "TypeError";
  message = codes "fetch failed";
  code = none;
  cause_code = some (codes "ECONNREFUSED");
  cause_name = none;
}

abbrev busy : Response
busy = record { status = 429; retry_after = absent; body = [] }

refused_status : (outcome_of (threw (plain refused))).status ≡ 502
unfolding outcome_of classify_transport_error classify_plain is_abort same contains to_lower_case
refused_status = refl

abbrev no_parse : Text → Option Json
no_parse s = none

outcome_of_upstream_failure_example :
    let returns = outcome_of (returned busy) in
    let throws =
      outcome_of (threw (proxy (handle_target_api_error no_parse 429 (codes "api") none))) in
    (returns.ok ≡ false)
    × (throws.ok ≡ false)
    × (throws.status ≡ returns.status)
    × (is_retryable_outcome throws ≡ is_retryable_outcome returns)
    × ((is_retryable_outcome throws ≡ true) ↔ ((◌≡◌ {A = ℕ} 429 429) ⊎ (500 ≤ 429)))
outcome_of_upstream_failure_example =
    outcome_of_upstream_failure no_parse (codes "api") none busy (omega arith)
