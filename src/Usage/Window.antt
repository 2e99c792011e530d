-- ===== src/Usage/Window.antt =====
-- src/utils/dashboard-stats.ts, recordTokenHeatmapEvent and getTokensInWindowSince: the log of all
-- token usage with the cached sum that the global token limit reads. The flags of the environment, the
-- clock and the retention time are arguments; a cutoff that would be negative is 0, which is handled
-- alike.
pub mod Sliding
use model_proxy_v.Base.{
  ℕ, ◌+◌, ◌-◌, ◌*◌, ◌/◌, Bool, true, not, ◌||◌, List, [], ◌∷◌, ◌++◌, if◌then◌else◌, ltb, ◌==◌, drop,
}
use model_proxy_v.Usage.Events.{Event, first_since, add_tokens, shift_before}

-- tokenHeatmapEvents, windowSumFrozen and windowSumCutoff
pub record WindowSums : Type 0 where
  pub events : List Event
  pub frozen : ℕ
  pub cutoff : ℕ

-- `Math.floor(timestamp / 1000) * 1000`
abbrev pub to_second : ℕ → ℕ
to_second timestamp = timestamp / 1000 * 1000

unfoldable pub record_token_heatmap_event : Bool → ℕ → ℕ → ℕ → WindowSums → WindowSums
record_token_heatmap_event mode_flags retention values timestamp w =
    if not mode_flags || values == 0 then w else record w {
      events =
          shift_before (to_second timestamp - retention)
            (w.events ++ record { ts = to_second timestamp; tokens = values } ∷ []);
    }

-- The loop up to the first event that is not before the cutoff: the frozen sum, and what is left.
unfoldable pub absorb : ℕ → ℕ → List Event → ℕ × List Event
absorb cutoff frozen [] = (frozen, [])
absorb cutoff frozen (e ∷ es) =
    if ltb e.ts cutoff then absorb cutoff (frozen + e.tokens) es else (frozen, e ∷ es)

-- Where the loop begins: behind the events before the last cutoff, or at the start.
unfoldable pub scan_from : WindowSums → List Event
scan_from w = if ltb 0 w.cutoff then drop (first_since w.cutoff w.events) w.events else w.events

unfoldable pub get_tokens_in_window_since : ℕ → WindowSums → ℕ × WindowSums
unfolding scan_from absorb
get_tokens_in_window_since cutoff w =
    let (frozen, live) = absorb cutoff w.frozen (scan_from w) in
    (add_tokens frozen live, record w { frozen = frozen; cutoff = cutoff })

-- What a run of the proxy does to the sums.
pub data Call : Type 0 where
  use_tokens : (values timestamp : ℕ) → Call
  ask_since : (cutoff : ℕ) → Call

-- The answers of the queries, in order.
unfoldable pub answers : ℕ → WindowSums → List Call → List ℕ
answers retention w [] = []
answers retention w (use_tokens values timestamp ∷ calls) =
    answers retention (record_token_heatmap_event true retention values timestamp w) calls
answers retention w (ask_since cutoff ∷ calls) =
    (get_tokens_in_window_since cutoff w).0
    ∷ answers retention (get_tokens_in_window_since cutoff w).1 calls
