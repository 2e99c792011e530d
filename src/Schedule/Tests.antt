-- ===== src/Schedule/Tests.antt =====
-- An alias with a day target, a fallback and a night target.
use model_proxy_v.Base.{
  ℕ, ◌≡◌, refl, true, false, ◌&&◌, ◌||◌, List, [], ◌∷◌, Option, some, none, Text, codes, arith,
}
use model_proxy_v.Values.{whole, str, arr, cons, nil}
use model_proxy_v.Schedule.{ScheduleConfig, window_matches, resolve_schedule_target}
use model_proxy_v.Schedule.Laws.{
  first_open, first_idle, or_target, hours, weekday, resolve_schedule_target_lem,
}

abbrev config : ScheduleConfig
config =
    (codes "idle", [])
    ∷ (codes "day", hours 8 18 weekday ∷ [])
    ∷ (
      codes "night",
      record {
        from = some (whole 22);
        to = none;
        days = some (arr (cons (str (codes "Friday")) nil));
      }
          ∷ [],
    )
    ∷ []

monday_morning : resolve_schedule_target (some config) 9 1 ≡ some (codes "day")
unfolding resolve_schedule_target window_matches model_proxy_v.Base.same
monday_morning = refl

friday_night : resolve_schedule_target (some config) 23 5 ≡ some (codes "night")
unfolding resolve_schedule_target window_matches model_proxy_v.Base.same
    model_proxy_v.Base.to_lower_case
friday_night = refl

sunday : resolve_schedule_target (some config) 9 0 ≡ some (codes "idle")
unfolding resolve_schedule_target window_matches model_proxy_v.Base.same
sunday = refl

resolve_schedule_target_lem_example :
    resolve_schedule_target (some config) 9 1
    ≡ or_target (first_open config 9 1) (first_idle config)
resolve_schedule_target_lem_example = resolve_schedule_target_lem config 9 1
