-- ===== src/Usage/Tests.antt =====
-- Runs of the usage windows at concrete inputs.
use model_proxy_v.Base.{◌+◌, true, ◌&&◌, List, [], ◌∷◌, codes, any, if◌then◌else◌, ◌≡◌, refl, arith}
use model_proxy_v.Values.{whole}
use model_proxy_v.Usage.Events.{
  Event, first_since, add_tokens, shift_before, sum_composite_events_since,
}
use model_proxy_v.Usage.Events.Laws.{window_sum, sum_composite_events_since_lem}
use model_proxy_v.Usage.Window.{
  WindowSums, Call, use_tokens, ask_since, answers, get_tokens_in_window_since,
  record_token_heatmap_event,
}
use model_proxy_v.Usage.Window.Sliding.{known, Orderly, running_totals, answers-running_totals}
use model_proxy_v.Usage.Aliases.{
  States, AliasTargets, get_window_ms, parse_window_spec, calendar_month,
  record_model_usage_for_composites, update_composite_alias_reverse_map,
}
use model_proxy_v.Usage.Aliases.Reverse.{limits}
use model_proxy_v.Usage.Aliases.Counting.{in_window, is_limited, in_window-record_model_usage}

abbrev three_events : List Event
three_events =
    record { ts = 1000; tokens = 5 }
    ∷ record { ts = 2000; tokens = 7 }
    ∷ record { ts = 3000; tokens = 9 }
    ∷ []

sum_composite_events_since_example :
    sum_composite_events_since three_events 2000 ≡ window_sum 2000 three_events
sum_composite_events_since_example = sum_composite_events_since_lem three_events 2000 (omega arith)

since_two : sum_composite_events_since three_events 2000 ≡ 16
unfolding sum_composite_events_since
since_two = refl

abbrev empty_window : WindowSums
empty_window = record { events = []; frozen = 0; cutoff = 0 }

-- Five tokens at second 10; the window then begins at second 20, and still holds them.
abbrev a_run : List Call
a_run = use_tokens 5 10000 ∷ ask_since 20000 ∷ use_tokens 7 30000 ∷ ask_since 30000 ∷ []

stays_in_window : answers 60000 empty_window a_run ≡ 5 ∷ 12 ∷ []
unfolding answers get_tokens_in_window_since record_token_heatmap_event add_tokens shift_before
    first_since
stays_in_window = refl

a_run-Orderly : Orderly 60000 empty_window a_run
unfolding record_token_heatmap_event get_tokens_in_window_since shift_before
a_run-Orderly = omega arith

answers-running_totals_example :
    answers 60000 empty_window a_run ≡ running_totals (known empty_window) a_run
answers-running_totals_example = answers-running_totals 60000 empty_window a_run tt a_run-Orderly

-- With a cutoff that goes back between two queries, an event is counted twice.
abbrev back_and_forth : List Call
back_and_forth = use_tokens 5 10000 ∷ ask_since 20000 ∷ ask_since 5000 ∷ ask_since 20000 ∷ []

counted_twice : answers 60000 empty_window back_and_forth ≡ 5 ∷ 5 ∷ 10 ∷ []
unfolding answers get_tokens_in_window_since record_token_heatmap_event add_tokens shift_before
    first_since
counted_twice = refl

abbrev an_alias : AliasTargets
an_alias = record {
  alias = codes "fast";
  has_token_limit = true;
  keys = codes "gpt" ∷ codes "token_limit" ∷ [];
}

abbrev a_state : States
a_state =
    (codes "fast", record { limit = whole 100; duration = codes "1h"; events = three_events }) ∷ []

in_window-record_model_usage_example :
    in_window (codes "fast") 2000 (
      record_model_usage_for_composites true
        (λ a. 4000)
        (update_composite_alias_reverse_map (an_alias ∷ []))
        (codes "gpt")
        11
        a_state)
    ≡ in_window (codes "fast") 2000 a_state
      + (if any (limits (codes "fast") (codes "gpt")) (an_alias ∷ [])
            && is_limited (codes "fast") a_state
          then 11
          else 0)
in_window-record_model_usage_example =
    in_window-record_model_usage (λ a. 4000) 11 2000 (codes "fast") (codes "gpt") (an_alias ∷ [])
      a_state (omega arith) (omega arith)

hours : get_window_ms (codes "23h") ≡ 82800000
unfolding get_window_ms
hours = refl

month_spec : parse_window_spec (codes "1m") ≡ calendar_month
unfolding parse_window_spec
month_spec = refl
