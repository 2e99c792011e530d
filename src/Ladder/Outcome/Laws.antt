-- ===== src/Ladder/Outcome/Laws.antt =====
-- Which failures move a ladder on, whichever way they arrive.
use model_proxy_v.Base.{
  ◌≤◌, ◌≡◌, ◌≢◌, ◌↔◌, refl, ◌⊎◌, inl, inr, true, false, Option-cases, Option, none, Text, arith,
  leb,
}
use model_proxy_v.Values.{Json}
use model_proxy_v.Errors.{
  ProxyError, PlainError, proxy, plain, classify_transport_error, classify_plain,
  handle_target_api_error,
}
use model_proxy_v.Errors.Laws.{IsTransport, classify_plain-IsTransport}
use model_proxy_v.Ladder.Outcome.{Response, returned, threw, outcome_of, is_retryable_outcome}

-- A failure status of an upstream leads to one decision, whether the handler returns the response
-- or throws the error that it makes of it: the outcome is a failure with that status, and it is
-- worth another target exactly at 429 and from 500 on.
pub outcome_of_upstream_failure :
    (parse : Text → Option Json) (name : Text) (body : Option Text) (r : Response)
    → 400 ≤ r.status
    → let returns = outcome_of (returned r) in
      let throws = outcome_of (threw (proxy (handle_target_api_error parse r.status name body))) in
      (returns.ok ≡ false)
      × (throws.ok ≡ false)
      × (throws.status ≡ returns.status)
      × (is_retryable_outcome throws ≡ is_retryable_outcome returns)
      × ((is_retryable_outcome throws ≡ true) ↔ ((r.status ≡ 429) ⊎ (500 ≤ r.status)))
unfolding outcome_of is_retryable_outcome handle_target_api_error
outcome_of_upstream_failure parse name body r h = ground arith

transport_retryable : (e : PlainError) (c : ProxyError) → IsTransport c → (leb 500 c.status ≡ true)
transport_retryable e c (inl h) = rw h
transport_retryable e c (inr (inl h)) = rw h
transport_retryable e c (inr (inr h)) = rw h

-- A thrown plain error is worth another target exactly when it counts as a transport failure.
pub outcome_of_plain :
    (e : PlainError)
    → (is_retryable_outcome (outcome_of (threw (plain e))) ≡ true) ↔ (classify_plain e ≢ none)
unfolding outcome_of is_retryable_outcome classify_transport_error
outcome_of_plain e = elim (Option-cases (classify_plain e)) [
  | inl missing ↦ rw missing ((λ h. ground arith), (λ h. absurd (h refl)))
  | inr (c, found) ↦
      let far : leb 500 c.status ≡ true =
        transport_retryable e c (classify_plain-IsTransport e c found) in
      rw found ((λ h k. cc), (λ h. ground arith))
]
