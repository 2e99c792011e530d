-- ===== src/Ladder/Outcome.antt =====
-- The outcome of one attempt and what it decides.
pub mod Laws
mod Tests
use model_proxy_v.Base.{ℕ, Bool, false, ◌||◌, Option, none, some, Text, ltb, leb, ◌==◌}
use model_proxy_v.Errors.{Thrown, proxy, plain, classify_transport_error}

-- The `Retry-After` header as the platform's `Number` and `Date.parse` read it: no header or an empty
-- one, a delay in milliseconds, a negative delay, a date with the clock at that moment, or neither.
pub data RetryAfter : Type 0 where
  absent : RetryAfter
  delay : ℕ → RetryAfter
  past : RetryAfter
  date : ℕ → ℕ → RetryAfter
  unreadable : RetryAfter

-- What the ladder looks at in a `Response`; the rest of it is `body`.
pub record Response : Type 0 where
  pub status : ℕ
  pub retry_after : RetryAfter
  pub body : Text

-- How `runAttempt` ends.
pub data Answer : Type 0 where
  returned : Response → Answer
  threw : Thrown → Answer

pub record Outcome : Type 0 where
  pub ok : Bool
  pub status : ℕ
  pub response : Option Response
  pub error : Option Thrown

unfoldable pub outcome_from_response : Response → Outcome
outcome_from_response r = record {
  ok = ltb r.status 400;
  status = r.status;
  response = some r;
  error = none;
}

unfoldable pub outcome_from_error : Thrown → Outcome
outcome_from_error (proxy e) = record {
  ok = false;
  status = e.status;
  response = none;
  error = some (proxy e);
}
outcome_from_error (plain e) = elim (classify_transport_error (plain e)) [
  | some c ↦ record { ok = false; status = c.status; response = none; error = some (plain e) }
  | none ↦ record { ok = false; status = 0; response = none; error = some (plain e) }
]

unfoldable pub outcome_of : Answer → Outcome
unfolding outcome_from_response outcome_from_error
outcome_of (returned r) = outcome_from_response r
outcome_of (threw t) = outcome_from_error t

unfoldable pub is_retryable_outcome : Outcome → Bool
is_retryable_outcome o = o.status == 429 || leb 500 o.status
