-- ===== src/Usage/Events.antt =====
-- src/utils/dashboard-stats.ts, the logs of token usage: their binary search, their sum from a place
-- on, and the removal of old entries. Times are milliseconds; a bound that would be negative is 0,
-- which no time is under either.
pub mod Laws
use model_proxy_v.Base.{
  ℕ, zero, suc, ◌+◌, ◌/◌, List, [], ◌∷◌, Option, none, some, if◌then◌else◌, ltb, length, drop,
  get_elem?,
}

-- The model, which no sum reads, is left out.
pub record Event : Type 0 where
  pub ts : ℕ
  pub tokens : ℕ

abbrev pub ts_of : Option Event → ℕ
ts_of none = 0
ts_of (some e) = e.ts

-- `events[i].ts`; the searches stay inside the log.
abbrev pub ts_at : List Event → ℕ → ℕ
ts_at es i = ts_of (get_elem? es i)

-- `while (lo < hi) { ... }`; one round for each element is enough, since the distance falls.
unfoldable pub search_loop : ℕ → ℕ → List Event → ℕ → ℕ → ℕ
search_loop zero cutoff es lo hi = lo
search_loop (suc fuel) cutoff es lo hi =
    let mid = (lo + hi) / 2 in
    let upper = search_loop fuel cutoff es (mid + 1) hi in
    let lower = search_loop fuel cutoff es lo mid in
    if ltb lo hi then (if ltb (ts_at es mid) cutoff then upper else lower) else lo

-- The first place that is not before the cutoff.
unfoldable pub first_since : ℕ → List Event → ℕ
unfolding search_loop
first_since cutoff es = search_loop (length es) cutoff es 0 (length es)

-- `for (...) total += events[i].tokens;`
unfoldable pub add_tokens : ℕ → List Event → ℕ
add_tokens total [] = total
add_tokens total (e ∷ es) = add_tokens (total + e.tokens) es

-- `while (events.length > 0 && events[0].ts < bound) events.shift();`
unfoldable pub shift_before : ℕ → List Event → List Event
shift_before bound [] = []
shift_before bound (e ∷ es) = if ltb e.ts bound then shift_before bound es else e ∷ es

-- sumCompositeEventsSince
unfoldable pub sum_composite_events_since : List Event → ℕ → ℕ
unfolding first_since add_tokens
sum_composite_events_since es cutoff = add_tokens 0 (drop (first_since cutoff es) es)
