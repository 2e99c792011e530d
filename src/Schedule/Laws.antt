-- ===== src/Schedule/Laws.antt =====
-- src/utils/config-loader.ts, resolveScheduleTarget: the target that is chosen, and how windows divide the
-- week.
use model_proxy_v.Base.{
  ℕ, ◌≡◌, ◌≤◌, ◌<◌, refl, false, ◌&&◌, ◌||◌, [], ◌∷◌, Option, none, some, Text, codes, same,
  if◌then◌else◌, any, arith, Bool-cases, inl, inr,
}
use model_proxy_v.Values.{whole, Json, str}
use model_proxy_v.Schedule.{
  ScheduleWindow, ScheduleConfig, days_match, window_matches, scan_targets, resolve_schedule_target,
}

-- The first target one of whose windows is open.
pub first_open : ScheduleConfig → ℕ → ℕ → Option Text
first_open [] hour day = none
first_open ((target, ws) ∷ rest) hour day =
    if any (λ w. window_matches w hour day) ws then some target else first_open rest hour day

-- The first target without windows.
pub first_idle : ScheduleConfig → Option Text
first_idle [] = none
first_idle ((target, []) ∷ rest) = some target
first_idle ((target, w ∷ ws) ∷ rest) = first_idle rest

-- `a ?? b`
abbrev pub or_target : Option Text → Option Text → Option Text
or_target none o = o
or_target (some t) o = some t

scan_targets_lem :
    (config : ScheduleConfig) (hour day : ℕ) (fallback : Option Text)
    → scan_targets config hour day fallback
      ≡ or_target (first_open config hour day) (or_target fallback (first_idle config))
unfolding scan_targets first_open first_idle
scan_targets_lem [] hour day none = refl
scan_targets_lem [] hour day (some f) = refl
scan_targets_lem ((target, []) ∷ rest) hour day none = scan_targets_lem rest hour day (some target)
scan_targets_lem ((target, []) ∷ rest) hour day (some f) = scan_targets_lem rest hour day (some f)
scan_targets_lem ((target, w ∷ ws) ∷ rest) hour day fallback =
    elim (Bool-cases (any (λ v. window_matches v hour day) (w ∷ ws))) [
      | inl e ↦ rw e refl
      | inr e ↦ rw e (scan_targets_lem rest hour day fallback)
    ]

-- At any time a schedule alias is served by the first target that has a window which is open, wherever
-- targets without windows stand, and only if there is none by the first target without windows.
pub resolve_schedule_target_lem :
    (config : ScheduleConfig) (hour day : ℕ)
    → resolve_schedule_target (some config) hour day
      ≡ or_target (first_open config hour day) (first_idle config)
unfolding resolve_schedule_target
resolve_schedule_target_lem config hour day = scan_targets_lem config hour day none

abbrev pub hours : ℕ → ℕ → Option Json → ScheduleWindow
hours from to days = record { from = some (whole from); to = some (whole to); days = days }

abbrev pub weekday : Option Json
weekday = some (str (codes "weekday"))

abbrev pub weekend : Option Json
weekend = some (str (codes "weekend"))

-- For whole hours `from ≤ middle ≤ to` and a day of the week, 0 to 6: the windows from `from` to `middle`
-- and from `middle` to `to`, on the same days, are never open together, and one of them is open when the
-- window from `from` to `to` is. A window for weekdays and one for weekends over the same hours are
-- never open together, and one of them is open when the window over all days is. No hour is added.
pub window_matches_division :
    (from middle to hour day : ℕ) (days : Option Json)
    → from ≤ middle
    → middle ≤ to
    → day < 7
    → ((window_matches (hours from middle days) hour day
          && window_matches (hours middle to days) hour day)
        ≡ false)
      × ((window_matches (hours from middle days) hour day
            || window_matches (hours middle to days) hour day)
          ≡ window_matches (hours from to days) hour day)
      × ((window_matches (hours from to weekday) hour day
            && window_matches (hours from to weekend) hour day)
          ≡ false)
      × ((window_matches (hours from to weekday) hour day
            || window_matches (hours from to weekend) hour day)
          ≡ window_matches (hours from to none) hour day)
unfolding window_matches days_match same
window_matches_division from middle to hour day days h k d =
    (ground arith, ground arith, ground arith, ground arith)
