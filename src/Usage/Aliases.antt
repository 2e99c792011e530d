-- ===== src/Usage/Aliases.antt =====
-- src/utils/dashboard-stats.ts, the token limits of composite aliases: compositeAliasStates,
-- modelToCompositeAliases and what writes and reads them; isSlidingDuration of
-- src/utils/config-loader.ts. The clock and the flags of the environment are arguments; `Calendar` is
-- what `Date` tells of a moment in local time.
pub mod Reverse
pub mod Counting
use model_proxy_v.Base.{
  ℕ, ◌+◌, ◌-◌, ◌*◌, Bool, false, not, ◌&&◌, ◌||◌, List, [], ◌∷◌, ◌++◌, Option, none, some, Text,
  codes, is_digit, parse_digits, same, includes, if◌then◌else◌, ◌==◌, leb, keep, all, or_else,
  reverse,
}
use model_proxy_v.Base.Table.{get, set, delete}
use model_proxy_v.Values.{Number}
use model_proxy_v.Usage.Events.{Event, shift_before, sum_composite_events_since}

pub record Calendar : Type 0 where
  -- `getDay()`: 0 is Sunday
  pub day : ℕ → ℕ
  -- the start of the day that is so many days back
  pub start_of_day : ℕ → ℕ → ℕ
  pub start_of_month : ℕ → ℕ

abbrev pub ms_per_day : ℕ
ms_per_day = 24 * 60 * 60 * 1000

abbrev pub composite_retention_ms : ℕ
composite_retention_ms = 31 * ms_per_day

-- The parts that /^(\d+)([hdwm])$/ captures, of a text read from its end.
abbrev pub split_duration : Text → Option (Text × ℕ)
split_duration [] = none
split_duration (unit ∷ []) = none
split_duration (unit ∷ c ∷ cs) =
    if all is_digit (c ∷ cs) && (unit == b'h' || unit == b'd' || (unit == b'w' || unit == b'm'))
    then some (reverse (c ∷ cs), unit)
    else none

abbrev pub ms_of_parts : Option (Text × ℕ) → ℕ
ms_of_parts none = 0
ms_of_parts (some (digits, unit)) =
    if unit == b'h'
    then parse_digits 0 digits * 60 * 60 * 1000
    else if unit == b'd'
    then parse_digits 0 digits * 24 * 60 * 60 * 1000
    else if unit == b'w'
    then 7 * 24 * 60 * 60 * 1000
    else 31 * 24 * 60 * 60 * 1000

unfoldable pub get_window_ms : Text → ℕ
unfolding parse_digits
get_window_ms duration = ms_of_parts (split_duration (reverse duration))

-- /^([1-9]|1[0-9]|2[0-3])h$/ and /^([1-6])d$/
unfoldable pub is_sliding_duration : Text → Bool
is_sliding_duration (c ∷ u ∷ []) =
    (leb b'1' c && leb c b'9' && u == b'h') || (leb b'1' c && leb c b'6' && u == b'd')
is_sliding_duration (c ∷ d ∷ u ∷ []) =
    ((c == b'1' && is_digit d) || (c == b'2' && (leb b'0' d && leb d b'3'))) && u == b'h'
is_sliding_duration _ = false

pub data WindowSpec : Type 0 where
  sliding : ℕ → WindowSpec
  calendar_week : WindowSpec
  calendar_month : WindowSpec

unfoldable pub parse_window_spec : Text → WindowSpec
unfolding is_sliding_duration get_window_ms same
parse_window_spec d =
    if is_sliding_duration d
    then sliding (get_window_ms d)
    else if same d (codes "1w")
    then calendar_week
    else calendar_month

-- How many days back the week began.
abbrev pub week_offset : Bool → ℕ → ℕ
week_offset starts_monday day = if starts_monday then (if day == 0 then 6 else day - 1) else day

unfoldable pub get_window_cutoff : Calendar → Bool → WindowSpec → ℕ → ℕ
get_window_cutoff c starts_monday (sliding ms) now = now - ms
get_window_cutoff c starts_monday calendar_month now = c.start_of_month now
get_window_cutoff c starts_monday calendar_week now =
    c.start_of_day now (week_offset starts_monday (c.day now))

pub record CompositeAliasState : Type 0 where
  pub limit : Number
  pub duration : Text
  pub events : List Event

abbrev pub States : Type 0
States = List (Text × CompositeAliasState)

abbrev pub events_of : Option CompositeAliasState → List Event
events_of none = []
events_of (some s) = s.events

unfoldable pub set_composite_limit : Text → Number → Text → States → States
set_composite_limit alias limit duration states =
    set alias (record { limit = limit; duration = duration; events = events_of (get alias states) })
      states

unfoldable pub clear_composite_limit : Text → States → States
clear_composite_limit alias states = delete alias states

-- The log with one use more, and without what is older than the retention time.
abbrev pub push_event : ℕ → ℕ → List Event → List Event
push_event now tokens es =
    shift_before (now - composite_retention_ms) (es ++ record { ts = now; tokens = tokens } ∷ [])

abbrev pub record_in : Text → ℕ → ℕ → States → Option CompositeAliasState → States
record_in alias now tokens states none = states
record_in alias now tokens states (some s) =
    set alias (record s { events = push_event now tokens s.events }) states

unfoldable pub record_composite_token_usage : Bool → ℕ → Text → ℕ → States → States
record_composite_token_usage mode_flags now alias tokens states =
    if mode_flags then record_in alias now tokens states (get alias states) else states

-- `for (const alias of aliases) recordCompositeTokenUsage(...)`, each at its own reading of the clock.
unfoldable pub record_for_aliases : Bool → (Text → ℕ) → List Text → ℕ → States → States
record_for_aliases mode_flags now [] tokens states = states
record_for_aliases mode_flags now (a ∷ others) tokens states =
    record_for_aliases mode_flags now others tokens
      (record_composite_token_usage mode_flags (now a) a tokens states)

-- modelToCompositeAliases: the set of aliases of each model.
abbrev pub AliasesOf : Type 0
AliasesOf = List (Text × List Text)

unfoldable pub record_model_usage_for_composites :
    Bool → (Text → ℕ) → AliasesOf → Text → ℕ → States → States
unfolding record_for_aliases record_composite_token_usage
record_model_usage_for_composites mode_flags now aliases model tokens states =
    record_for_aliases mode_flags now (or_else (get model aliases) []) tokens states

-- An alias as the configuration has it: whether it has a `token_limit`, and its keys.
pub record AliasTargets : Type 0 where
  pub alias : Text
  pub has_token_limit : Bool
  pub keys : List Text

-- `new Set()` and `add`
abbrev pub add_member : Text → List Text → List Text
add_member a members = if includes a members then members else members ++ a ∷ []

unfoldable pub add_alias : Text → List Text → AliasesOf → AliasesOf
add_alias alias [] m = m
add_alias alias (model ∷ models) m =
    add_alias alias models (set model (add_member alias (or_else (get model m) [])) m)

abbrev pub target_keys : AliasTargets → List Text
target_keys t = keep (λ k. not (same k (codes "token_limit"))) t.keys

unfoldable pub add_aliases : List AliasTargets → AliasesOf → AliasesOf
unfolding add_alias
add_aliases [] m = m
add_aliases (t ∷ ts) m =
    add_aliases ts (if t.has_token_limit then add_alias t.alias (target_keys t) m else m)

unfoldable pub update_composite_alias_reverse_map : List AliasTargets → AliasesOf
unfolding add_aliases
update_composite_alias_reverse_map aliases = add_aliases aliases []

-- `targets.reduce((sum, m) => sum + getModelTotalTokens(m), 0)`
abbrev pub sum_totals : (Text → ℕ) → ℕ → List Text → ℕ
sum_totals total_of sum [] = sum
sum_totals total_of sum (m ∷ ms) = sum_totals total_of (sum + total_of m) ms

abbrev pub usage_of : (Text → ℕ) → (Text → ℕ) → List Text → Option CompositeAliasState → ℕ
usage_of cutoff_of total_of targets none = sum_totals total_of 0 targets
usage_of cutoff_of total_of targets (some s) =
    sum_composite_events_since s.events (cutoff_of s.duration)

-- The usage of an alias in its window; `total_of` is getModelTotalTokens.
unfoldable pub get_composite_alias_token_usage :
    Calendar → Bool → ℕ → (Text → ℕ) → Text → List Text → States → ℕ
unfolding parse_window_spec get_window_cutoff
get_composite_alias_token_usage c starts_monday now total_of alias targets states =
    usage_of (λ d. get_window_cutoff c starts_monday (parse_window_spec d) now) total_of targets
      (get alias states)
