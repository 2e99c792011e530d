-- ===== src/Schedule.antt =====
-- src/utils/config-loader.ts, windowMatches and resolveScheduleTarget: which target of a schedule alias
-- serves now. The clock is an argument: the hour (0 to 23) and the day (0 is Sunday) of `new Date()`.
pub mod Laws
pub mod Tests
use model_proxy_v.Base.{
  ℕ, Bool, true, false, not, ◌&&◌, ◌||◌, List, [], ◌∷◌, Option, none, some, Text, codes, same,
  to_lower_case, if◌then◌else◌, ◌==◌, ltb, leb, take, any, get_elem?, or_else,
}
use model_proxy_v.Values.{
  Number, whole, minus, fraction, minus_fraction, infinite, Json, str, arr, items,
}

pub record ScheduleWindow : Type 0 where
  pub from : Option Number
  pub to : Option Number
  pub days : Option Json

-- `v <= h` and `h < v` for an hour `h`
abbrev pub not_after : Number → ℕ → Bool
not_after (whole n) h = leb n h
not_after (minus n) h = true
not_after (fraction n) h = ltb n h
not_after (minus_fraction n) h = true
not_after (infinite positive) h = not positive

abbrev pub is_before : ℕ → Number → Bool
is_before h v = not (not_after v h)

abbrev pub day_names : List Text
day_names =
    codes "sun"
    ∷ codes "mon"
    ∷ codes "tue"
    ∷ codes "wed"
    ∷ codes "thu"
    ∷ codes "fri"
    ∷ codes "sat"
    ∷ []

-- `typeof d === 'string' && d.toLowerCase().slice(0, 3) === todayName`
unfoldable pub is_today : Option Text → Json → Bool
is_today (some today) (str d) = same (take 3 (to_lower_case d)) today
is_today _ _ = false

unfoldable pub days_match : Option Json → ℕ → Bool
unfolding is_today
days_match none day = true
days_match (some (str s)) day =
    if same s (codes "weekday")
    then leb 1 day && leb day 5
    else if same s (codes "weekend")
    then day == 0 || day == 6
    else true
days_match (some (arr ds)) day = any (is_today (get_elem? day_names day)) (items ds)
days_match (some _) day = true

unfoldable pub window_matches : ScheduleWindow → ℕ → ℕ → Bool
unfolding days_match
window_matches window hour day =
    if not_after (or_else (window.from) (whole 0)) hour
      && is_before hour (or_else (window.to) (whole 24))
    then days_match (window.days) day
    else false

-- A target with its windows; no array at all counts as an empty one.
abbrev pub ScheduleConfig : Type 0
ScheduleConfig = List (Text × List ScheduleWindow)

-- The loop, with the first target that has no window.
unfoldable pub scan_targets : ScheduleConfig → ℕ → ℕ → Option Text → Option Text
scan_targets [] hour day fallback = fallback
scan_targets ((target, []) ∷ rest) hour day none = scan_targets rest hour day (some target)
scan_targets ((target, []) ∷ rest) hour day (some f) = scan_targets rest hour day (some f)
scan_targets ((target, w ∷ ws) ∷ rest) hour day fallback =
    let later = scan_targets rest hour day fallback in
    if any (λ v. window_matches v hour day) (w ∷ ws) then some target else later

-- `none` for the configuration: the name is no schedule alias.
unfoldable pub resolve_schedule_target : Option ScheduleConfig → ℕ → ℕ → Option Text
unfolding scan_targets
resolve_schedule_target none hour day = none
resolve_schedule_target (some config) hour day = scan_targets config hour day none
