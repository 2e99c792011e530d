-- ===== src/Coordinator/Tests.antt =====
-- A conversation with one tool call.
use model_proxy_v.Base.{
  ℕ, ◌≡◌, refl, List, [], ◌∷◌, Option, none, some, Text, codes, any, keep, take, reverse,
  if◌then◌else◌,
}
use model_proxy_v.Values.{Json, str, arr, obj, field, end, cons, nil}
use model_proxy_v.Coordinator.{planning, executing, is_assistant, detect_coordinator_stage}
use model_proxy_v.Coordinator.Laws.{fires, detect_coordinator_stage_lem}

abbrev called : Json
called = obj (
    field (codes "role") (str (codes "assistant")) (
      field (codes "content")
        (arr (
          cons
            (obj (
              field (codes "type") (str (codes "tool_use"))
                (field (codes "name") (str (codes "Edit")) end)))
            nil))
        end))

abbrev spoken : Json
spoken = obj (
    field (codes "role") (str (codes "assistant")) (field (codes "content") (str (codes "ok")) end))

by_any : detect_coordinator_stage (called ∷ spoken ∷ []) none 20 ≡ executing
unfolding detect_coordinator_stage is_assistant model_proxy_v.Values.prop model_proxy_v.Base.same
    model_proxy_v.Coordinator.content_fires model_proxy_v.Coordinator.block_fires
by_any = refl

by_other : detect_coordinator_stage (called ∷ spoken ∷ []) (some (codes "Write" ∷ [])) 20 ≡ planning
unfolding detect_coordinator_stage is_assistant model_proxy_v.Values.prop model_proxy_v.Base.same
    model_proxy_v.Coordinator.content_fires model_proxy_v.Coordinator.block_fires
by_other = refl

too_far : detect_coordinator_stage (called ∷ spoken ∷ []) none 1 ≡ planning
unfolding detect_coordinator_stage is_assistant model_proxy_v.Values.prop model_proxy_v.Base.same
    model_proxy_v.Coordinator.content_fires
too_far = refl

detect_coordinator_stage_lem_example : detect_coordinator_stage (called ∷ spoken ∷ []) none 20 ≡ (
    if any (fires none) (take 20 (keep is_assistant (reverse (called ∷ spoken ∷ []))))
    then executing
    else planning)
detect_coordinator_stage_lem_example = detect_coordinator_stage_lem (called ∷ spoken ∷ []) none 20
