-- ===== src/Composite/Plans.antt =====
-- src/utils/config-loader.ts, getCompositeAliasMode, resolveFusionPlan, resolveCoordinatorPlan and
-- resolveCompositeWithDecision. `route_of` is getModelRouteConfig with the alias on its chain and the
-- name of the target for an alias that is not there (`none`: it throws). The options of a fusion, which no
-- decision here reads, and the text that is sent to the decision service are left out; the answer of that
-- service is an argument.
pub mod Handoff
pub mod Panel
pub mod Choice
pub mod Tests
use model_proxy_v.Base.{
  Bool, true, false, not, ◌&&◌, ◌||◌, List, [], ◌∷◌, ◌++◌, Option, none, some, Text, codes, same,
  if◌then◌else◌, keep, any, or_else,
}
use model_proxy_v.Values.{Number, is_positive, is_nonblank}

-- FusionRole; any other value of `role` is as good as none.
pub data Role : Type 0 where
  panel judge synth planner executor : Role

-- CompositeTargetConfig as far as plans read it.
pub record PlanTarget : Type 0 where
  pub role : Option Role
  pub coord : Option Number
  pub fusion : Option Number
  pub primary : Bool
  pub fallback : Option Number
  pub ability : Option Text

abbrev pub Entries : Type 0
Entries = List (Text × PlanTarget)

-- `typeof n === 'number' && n > 0`
abbrev pub is_marked : Option Number → Bool
is_marked none = false
is_marked (some n) = is_positive n

abbrev pub is_planner : PlanTarget → Bool
is_planner c = elim c.role [ some planner ↦ true | _ ↦ false ]

abbrev pub is_executor : PlanTarget → Bool
is_executor c = elim c.role [ some executor ↦ true | _ ↦ false ]

abbrev pub is_fusion_role : Option Role → Bool
is_fusion_role (some panel) = true
is_fusion_role (some judge) = true
is_fusion_role (some synth) = true
is_fusion_role _ = false

abbrev pub is_coord : PlanTarget → Bool
is_coord c = is_marked c.coord

abbrev pub is_fusion : PlanTarget → Bool
is_fusion c = is_fusion_role c.role || is_marked c.fusion

abbrev pub has_priority : PlanTarget → Bool
has_priority c = c.primary || is_marked c.fallback

-- `cfg.ability && cfg.ability.trim().length > 0`
abbrev pub has_ability : PlanTarget → Bool
has_ability c = elim c.ability [ none ↦ false | some a ↦ is_nonblank a ]

abbrev pub on_config {ℓ} : {A : Type ℓ} → (PlanTarget → A) → Text × PlanTarget → A
on_config f (name, c) = f c

pub data CompositeAliasMode : Type 0 where
  coordinator fusion fallback share decision : CompositeAliasMode

-- For an alias; `has_decision_config`: a model and a URL for the decision service are given.
unfoldable pub get_composite_alias_mode : Bool → Entries → CompositeAliasMode
get_composite_alias_mode has_decision_config entries =
    if any (on_config is_coord) entries
    then coordinator
    else if any (on_config is_fusion) entries
    then CompositeAliasMode.fusion
    else if any (on_config has_priority) entries
    then CompositeAliasMode.fallback
    else if has_decision_config && any (on_config has_ability) entries
    then decision
    else share

-- What a coordinator alias is refused for, in the order of the tests.
pub data PlanError : Type 0 where
  no_planner no_executor many_planners many_executors mixed unresolved : PlanError

pub data Planned (A : Type 0) : Type 0 where
  no_plan : Planned A
  plan : A → Planned A
  refused : PlanError → Planned A

pub record CoordinatorPlan (R : Type 0) : Type 0 where
  pub planner_name : Text
  pub planner_route : R
  pub executor_name : Text
  pub executor_route : R
  -- `none`: any tool triggers
  pub trigger_tools : Option (List Text)

abbrev pub coordinator_default_trigger_tools : List Text
coordinator_default_trigger_tools =
    codes "ExitPlanMode" ∷ codes "Edit" ∷ codes "Write" ∷ codes "Bash" ∷ codes "NotebookEdit" ∷ []

abbrev pub trigger_tools_of : Option (List Text) → Option (List Text)
trigger_tools_of none = some coordinator_default_trigger_tools
trigger_tools_of (some []) = none
trigger_tools_of (some (t ∷ ts)) = some (t ∷ ts)

module _ {R : Type 0} (route_of : Text → Option R) where
  abbrev pub pair_plan :
      Text → Text → Option (List Text) → Option R → Option R → Planned (CoordinatorPlan R)
  pair_plan p e toolset (some pr) (some er) = plan (record {
    planner_name = p;
    planner_route = pr;
    executor_name = e;
    executor_route = er;
    trigger_tools = trigger_tools_of toolset;
  })
  pair_plan p e toolset _ _ = refused unresolved

  -- The tests on the planners and executors, then on fusion, then the routes.
  unfoldable pub plan_pair :
      Bool → Option (List Text) → Entries → Entries → Planned (CoordinatorPlan R)
  plan_pair mixes toolset [] executors = refused no_planner
  plan_pair mixes toolset (p ∷ ps) [] = refused no_executor
  plan_pair mixes toolset (p ∷ q ∷ ps) (e ∷ es) = refused many_planners
  plan_pair mixes toolset (p ∷ []) (e ∷ f ∷ es) = refused many_executors
  plan_pair mixes toolset ((p, pc) ∷ []) ((e, ec) ∷ []) =
      if mixes then refused mixed else pair_plan p e toolset (route_of p) (route_of e)

  unfoldable pub resolve_coordinator_plan :
      Option (List Text) → Entries → Planned (CoordinatorPlan R)
  unfolding plan_pair
  resolve_coordinator_plan toolset entries =
      if any (on_config is_coord) entries
      then plan_pair (any (on_config is_fusion) entries) toolset
          (keep (on_config is_planner) (keep (on_config is_coord) entries))
          (keep (on_config is_executor) (keep (on_config is_coord) entries))
      else no_plan

  pub record Stages : Type 0 where
    pub panel_members : List (Text × R)
    pub judge_member : Option (Text × R)
    pub synth_member : Option (Text × R)

  abbrev pub place : Option Role → Text × R → Stages → Stages
  place (some judge) m s = record s { judge_member = some m }
  place (some synth) m s = record s { synth_member = some m }
  place _ m s = record s { panel_members = s.panel_members ++ m ∷ [] }

  -- The loop over the targets; a route that throws ends it.
  unfoldable pub place_all : Entries → Stages → Option Stages
  place_all [] s = some s
  place_all ((name, c) ∷ entries) s = elim (route_of name) [
    | none ↦ none
    | some r ↦ place_all entries (place c.role (name, r) s)
  ]

  pub record FusionPlan : Type 0 where
    pub members : List (Text × R)
    pub judge_of : Option (Text × R)
    pub synth_of : Text × R

  -- `if (!synth) synth = judge ?? panel[0];`
  abbrev pub plan_of_members :
      List (Text × R) → Option (Text × R) → Option (Text × R) → Planned FusionPlan
  plan_of_members [] judge_member synth_member = no_plan
  plan_of_members (m ∷ ms) judge_member synth_member = plan (record {
    members = m ∷ ms;
    judge_of = judge_member;
    synth_of = or_else synth_member (or_else judge_member m);
  })

  abbrev pub fusion_of : Option Stages → Planned FusionPlan
  fusion_of none = refused unresolved
  fusion_of (some s) = plan_of_members s.panel_members s.judge_member s.synth_member

  unfoldable pub resolve_fusion_plan : Entries → Planned FusionPlan
  unfolding place_all
  resolve_fusion_plan entries =
      fusion_of (
        place_all entries (record { panel_members = []; judge_member = none; synth_member = none }))

-- The answer of the decision service: it failed or is none that selects a target; or a target, empty
-- where it names none, with whether the confidence reaches the threshold.
pub data Decision : Type 0 where
  failed : Decision
  choice : Text → Bool → Decision

module _ {C : Type 0} (name_of : C → Text) where
  unfoldable pub find_named : Text → List C → Option C
  find_named name [] = none
  find_named name (c ∷ cs) = if same (name_of c) name then some c else find_named name cs

  abbrev pub put_named_first : Text → List C → Option C → List C
  put_named_first name cs none = cs
  put_named_first name cs (some c) = c ∷ keep (λ d. not (same (name_of d) name)) cs

  abbrev pub decide : List C → Decision → List C
  decide cs failed = cs
  decide cs (choice name confident) =
      if same name [] || not confident then cs else put_named_first name cs (find_named name cs)

  -- resolveCompositeWithDecision over the candidates of the alias.
  unfoldable pub resolve_composite_with_decision : Bool → (C → Bool) → Decision → List C → List C
  unfolding find_named
  resolve_composite_with_decision has_config able answer cs =
      if has_config && any able cs then decide cs answer else cs
