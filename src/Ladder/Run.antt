-- ===== src/Ladder/Run.antt =====
-- `runTargetLadder` of src/index.ts. `respond i n` is how attempt `n` on rung `i` ends: the world that
-- `runAttempt` asks. `buildRouteAttempt` names the model of an attempt by the rung's target.
pub mod Rung
pub mod Descent
pub mod Effort
mod Tests
use model_proxy_v.Base.{
  ℕ, zero, suc, ◌-◌, ◌*◌, ◌^◌, min, Bool, true, false, not, ◌||◌, List, [], ◌∷◌, ◌++◌, Option, none,
  some, Text, codes, or_else, any, ltb, ◌==◌, if◌then◌else◌,
}
use model_proxy_v.Values.{Number, whole, is_filled}
use model_proxy_v.Errors.{ProxyError, Thrown, proxy}
use model_proxy_v.Ladder.Descriptor.{Descriptor}
use model_proxy_v.Ladder.Outcome.{
  absent, delay, past, date, unreadable, Response, Answer, returned, threw, Outcome, outcome_of,
  is_retryable_outcome,
}

-- DEFAULT_MAX_TARGET_RETRIES
abbrev pub default_max_target_retries : ℕ
default_max_target_retries = 1

-- What happens during a run, in order.
pub data Event : Type 0 where
  attempted : ℕ → ℕ → Event
  waited : ℕ → Event

-- The request's variables that the ladder writes: `modelUsageOneTimeAuthCode`, `failedModelId`,
-- `modelFailureRecorded`, the calls of `recordModelFailedRequest`, and the events.
pub record Run : Type 0 where
  pub otac : Option Text
  pub failed_model : Option Text
  pub failure_recorded : Bool
  pub failures : List Text
  pub trace : List Event

pub data Reply : Type 0 where
  replies : Response → Reply
  raises : Thrown → Reply

-- `entry.retry ?? proxyConfig.remote?.max_target_retries ?? DEFAULT_MAX_TARGET_RETRIES`
abbrev pub max_retries : Option ℕ → Descriptor → ℕ
max_retries configured d = or_else d.retry (or_else configured default_max_target_retries)

-- `parseRetryAfterMs`
unfoldable pub parse_retry_after_ms : Option Response → Option ℕ
parse_retry_after_ms none = none
parse_retry_after_ms (some r) = elim r.retry_after [
  | absent ↦ none
  | delay ms ↦ some ms
  | past ↦ some 0
  | date at now ↦ some (at - now)
  | unreadable ↦ none
]

-- The wait before retry `n + 1`, in milliseconds.
unfoldable pub wait_ms : Option Response → ℕ → ℕ
unfolding parse_retry_after_ms
wait_ms r n = elim (parse_retry_after_ms r) [
  | some ms ↦ min ms 2000
  | none ↦ min (250 * 2 ^ n) 2000
]

abbrev pub is_status : ℕ → Number → Bool
is_status s (whole n) = n == s
is_status s _ = false

-- `entry.retry_on?.includes(status)`
unfoldable pub listed : Option (List Number) → ℕ → Bool
listed none s = false
listed (some ns) s = any (is_status s) ns

abbrev pub log : Event → Run → Run
log e r = record r { trace = r.trace ++ e ∷ [] }

-- `if (attempt.modelId) failedModelId = attempt.modelId`
abbrev pub note_model : Descriptor → Run → Run
note_model d r = if is_filled d.target then record r { failed_model = some d.target } else r

-- The `catch` clause records a thrown error as a failed request.
abbrev pub note_failure : Descriptor → Answer → Run → Run
note_failure d (returned _) r = r
note_failure d (threw _) r =
    if is_filled d.target
    then record r { failures = r.failures ++ d.target ∷ []; failure_recorded = true }
    else r

-- `if (waitMs > 0) await …`
abbrev pub pause : ℕ → Run → Run
pause ms r = if ltb 0 ms then log (waited ms) r else r

-- The inner loop at attempt `n`, with `left` retries after it.
unfoldable pub rung : (ℕ → Answer) → ℕ → Descriptor → ℕ → ℕ → Run → Outcome × Run
unfolding wait_ms listed
rung respond i d n zero r =
    let r' = note_failure d (respond n) (log (attempted i n) (note_model d r)) in
    (outcome_of (respond n), r')
rung respond i d n (suc left) r =
    let o = outcome_of (respond n) in
    let r' = note_failure d (respond n) (log (attempted i n) (note_model d r)) in
    let again = rung respond i d (suc n) left (pause (wait_ms o.response n) r') in
    if o.ok || not (listed d.retry_on o.status) then (o, r') else again

abbrev pub all_failed : ProxyError
all_failed = record {
  message = codes "All auth targets failed";
  status = 502;
  type = codes "upstream_error";
}

-- How an exhausted ladder ends.
unfoldable pub finish : Option Outcome → Reply
finish none = raises (proxy all_failed)
finish (some o) = elim o.response [
  | some r ↦ replies r
  | none ↦ raises (or_else o.error (proxy all_failed))
]

module _ (respond : ℕ → ℕ → Answer) (configured : Option ℕ) (base_otac : Option Text) where
  -- The first attempt on a rung, once its one-time code is in place.
  abbrev pub start_rung : ℕ → Descriptor → Run → Outcome × Run
  start_rung i d r =
      rung (respond i) i d 0 (max_retries configured d)
        (record r { otac = elim d.otac [ none ↦ base_otac | some c ↦ some c ] })

  -- The outer loop from rung `i` on; an `ok` outcome returns at once.
  unfoldable pub descend : ℕ → List Descriptor → Option Outcome → Run → Reply × Run
  unfolding finish
  descend i [] last r = (finish last, r)
  descend i (d ∷ ds) last r =
      let o = (start_rung i d r).0 in
      let r' = (start_rung i d r).1 in
      let next = descend (suc i) ds (some o) r' in
      if o.ok
      then (finish (some o), r')
      else if is_retryable_outcome o
      then next
      else (finish (some o), r')

-- `runTargetLadder`
unfoldable pub run_target_ladder : (ℕ → ℕ → Answer) → Option ℕ → List Descriptor → Run → Reply × Run
unfolding descend
run_target_ladder respond configured entries r = descend respond configured r.otac 0 entries none r
