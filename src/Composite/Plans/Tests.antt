-- ===== src/Composite/Plans/Tests.antt =====
-- A hand-off, a fusion and a decision between two targets.
use model_proxy_v.Base.{
  Bool, true, false, List, [], ◌∷◌, Option, none, some, Text, codes, same, any, ◌≡◌, ◌↔◌, refl,
}
use model_proxy_v.Values.{whole}
use model_proxy_v.Composite.Plans.{
  Role, panel, judge, planner, executor, PlanTarget, Entries, on_config, is_fusion, plan,
  CoordinatorPlan, coordinator_default_trigger_tools, resolve_coordinator_plan, plan_pair,
  FusionPlan, place_all, resolve_fusion_plan, choice, find_named, resolve_composite_with_decision,
}
use model_proxy_v.Composite.Plans.Handoff.{
  IsPair, planners_of, executors_of, resolve_coordinator_plan_iff,
}
use model_proxy_v.Composite.Plans.Panel.{IsFusion, resolve_fusion_plan-IsFusion}

abbrev target_with : Role → PlanTarget
target_with r = record {
  role = some r;
  coord = some (whole 1);
  fusion = none;
  primary = false;
  fallback = none;
  ability = none;
}

abbrev route_by_name : Text → Option Text
route_by_name name = some name

abbrev handoff : Entries
handoff = (codes "p", target_with planner) ∷ (codes "e", target_with executor) ∷ []

abbrev handoff_plan : CoordinatorPlan Text
handoff_plan = record {
  planner_name = codes "p";
  planner_route = codes "p";
  executor_name = codes "e";
  executor_route = codes "e";
  trigger_tools = some coordinator_default_trigger_tools;
}

resolve_coordinator_plan_iff_example :
    (resolve_coordinator_plan route_by_name none handoff ≡ plan handoff_plan) ↔ (
      IsPair route_by_name none (planners_of handoff) (executors_of handoff) handoff_plan
      × (any (on_config is_fusion) handoff ≡ false))
resolve_coordinator_plan_iff_example =
    resolve_coordinator_plan_iff route_by_name none handoff handoff_plan

handed_off : resolve_coordinator_plan route_by_name none handoff ≡ plan handoff_plan
unfolding resolve_coordinator_plan plan_pair
handed_off = refl

abbrev fused : Entries
fused =
    (codes "a", target_with panel)
    ∷ (codes "j", target_with judge)
    ∷ (codes "b", target_with panel)
    ∷ []

abbrev fusion_plan : FusionPlan route_by_name
fusion_plan = record {
  members = (codes "a", codes "a") ∷ (codes "b", codes "b") ∷ [];
  judge_of = some (codes "j", codes "j");
  synth_of = (codes "j", codes "j");
}

fused_plan : resolve_fusion_plan route_by_name fused ≡ plan fusion_plan
unfolding resolve_fusion_plan place_all
fused_plan = refl

resolve_fusion_plan-IsFusion_example : IsFusion route_by_name fused fusion_plan
resolve_fusion_plan-IsFusion_example =
    resolve_fusion_plan-IsFusion route_by_name fused fusion_plan fused_plan

abbrev itself : Text → Text
itself name = name

abbrev able : Text → Bool
able name = true

abbrev two_names : List Text
two_names = codes "a" ∷ codes "b" ∷ []

moved_to_front :
    resolve_composite_with_decision itself true able (choice (codes "b") true) two_names
    ≡ codes "b" ∷ codes "a" ∷ []
unfolding resolve_composite_with_decision find_named same
moved_to_front = refl
