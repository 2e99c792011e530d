-- ===== src/Composite/Plans/Handoff.antt =====
-- When a coordinator alias has a plan.
use model_proxy_v.Base.{
  Bool, true, false, List, [], ◌∷◌, Option, none, some, Text, if◌then◌else◌, keep, any, Bool-cases,
  inl, inr, ◌≡◌, ◌≢◌, ◌↔◌, refl, subst, arith,
}
use model_proxy_v.Composite.Plans.{
  PlanTarget, Entries, is_planner, is_executor, is_coord, is_fusion, on_config, no_plan, plan,
  CoordinatorPlan, trigger_tools_of, pair_plan, plan_pair, resolve_coordinator_plan,
}

abbrev pub planners_of : Entries → Entries
planners_of entries = keep (on_config is_planner) (keep (on_config is_coord) entries)

abbrev pub executors_of : Entries → Entries
executors_of entries = keep (on_config is_executor) (keep (on_config is_coord) entries)

module _ {R : Type 0} (route_of : Text → Option R) (toolset : Option (List Text)) where
  -- The parts of a plan, from the two targets that are marked for the hand-off.
  pub record IsPair (planners executors : Entries) (p : CoordinatorPlan R) : Type 0 where
    pub planner : PlanTarget
    pub executor : PlanTarget
    pub one_planner : planners ≡ (p.planner_name, planner) ∷ []
    pub one_executor : executors ≡ (p.executor_name, executor) ∷ []
    pub planner_resolved : route_of p.planner_name ≡ some p.planner_route
    pub executor_resolved : route_of p.executor_name ≡ some p.executor_route
    pub triggers : p.trigger_tools ≡ trigger_tools_of toolset

  pair_plan-routes :
      (p e : Text) (pr er : Option R) (q : CoordinatorPlan R)
      → pair_plan route_of p e toolset pr er ≡ plan q
      → (pr' : R) × (er' : R) × (pr ≡ some pr')
        × (er ≡ some er')
        × (record {
          planner_name = p;
          planner_route = pr';
          executor_name = e;
          executor_route = er';
          trigger_tools = trigger_tools_of toolset;
        }
            ≡ q)
  pair_plan-routes p e none er q h = absurd (ground arith)
  pair_plan-routes p e (some pr) none q h = absurd (ground arith)
  pair_plan-routes p e (some pr) (some er) q h = (pr, er, refl, refl, ground arith)

  plan_pair-IsPair :
      (planners executors : Entries) (p : CoordinatorPlan R)
      → plan_pair route_of false toolset planners executors ≡ plan p
      → IsPair planners executors p
  unfolding plan_pair
  plan_pair-IsPair [] executors p h = absurd (ground arith)
  plan_pair-IsPair (a ∷ rest) [] p h = absurd (ground arith)
  plan_pair-IsPair (a ∷ b ∷ rest) (e ∷ es) p h = absurd (ground arith)
  plan_pair-IsPair (a ∷ []) (e ∷ f ∷ es) p h = absurd (ground arith)
  plan_pair-IsPair ((a, ac) ∷ []) ((e, ec) ∷ []) p h =
      let (pr, er, x, y, q) = pair_plan-routes a e (route_of a) (route_of e) p h in
      subst (IsPair ((a, ac) ∷ []) ((e, ec) ∷ [])) q (record {
        planner = ac;
        executor = ec;
        one_planner = refl;
        one_executor = refl;
        planner_resolved = x;
        executor_resolved = y;
        triggers = refl;
      })

  plan_pair-mixed :
      (planners executors : Entries) (p : CoordinatorPlan R)
      → plan_pair route_of true toolset planners executors ≢ plan p
  unfolding plan_pair
  plan_pair-mixed [] executors p h = ground arith
  plan_pair-mixed (a ∷ rest) [] p h = ground arith
  plan_pair-mixed (a ∷ b ∷ rest) (e ∷ es) p h = ground arith
  plan_pair-mixed (a ∷ []) (e ∷ f ∷ es) p h = ground arith
  plan_pair-mixed ((a, ac) ∷ []) ((e, ec) ∷ []) p h = ground arith

  plan_pair-of_IsPair :
      (planners executors : Entries) (p : CoordinatorPlan R)
      → IsPair planners executors p
      → plan_pair route_of false toolset planners executors ≡ plan p
  unfolding plan_pair
  plan_pair-of_IsPair planners executors p i =
      rw (i.one_planner, i.one_executor, i.planner_resolved, i.executor_resolved, ← i.triggers)

  any-of_keep :
      (entries : Entries) (q f : Text × PlanTarget → Bool) (x : Text × PlanTarget)
      → keep q (keep f entries) ≡ x ∷ []
      → any f entries ≡ true
  any-of_keep [] q f x h = absurd (ground arith)
  any-of_keep (e ∷ entries) q f x h = elim (Bool-cases (f e)) [
    | inl here ↦ rw here
    | inr other ↦ rw other (
        any-of_keep entries q f x (
          subst (λ (b : Bool). keep q (if b then e ∷ keep f entries else keep f entries) ≡ x ∷ [])
            other h))
  ]

  -- A coordinator alias has the plan exactly when among the targets that are marked by `coord` one is
  -- the planner and one the executor, the two of the plan with their routes, no target is marked for a
  -- fusion, and the trigger tools are those that the tool set stands for.
  pub resolve_coordinator_plan_iff :
      (entries : Entries) (p : CoordinatorPlan R)
      → (resolve_coordinator_plan route_of toolset entries ≡ plan p) ↔ (
          IsPair (planners_of entries) (executors_of entries) p
          × (any (on_config is_fusion) entries ≡ false))
  unfolding resolve_coordinator_plan
  resolve_coordinator_plan_iff entries p = (
    λ h. elim (Bool-cases (any (on_config is_coord) entries)) [
      | inr none_marked ↦ absurd (let k : no_plan ≡ plan p = rw none_marked at h in ground arith)
      | inl marked ↦ elim (Bool-cases (any (on_config is_fusion) entries)) [
        | inl both ↦ absurd (
            plan_pair-mixed (planners_of entries) (executors_of entries) p (rw (marked, both) at h))
        | inr pure ↦ (
          plan_pair-IsPair (planners_of entries) (executors_of entries) p (rw (marked, pure) at h),
          pure,
        )
      ]
    ],
    λ (i, pure).
        rw
          (any-of_keep entries (on_config is_planner) (on_config is_coord)
            (p.planner_name, i.planner) i.one_planner)
          (rw pure (plan_pair-of_IsPair (planners_of entries) (executors_of entries) p i)),
  )
