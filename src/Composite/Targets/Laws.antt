-- ===== src/Composite/Targets/Laws.antt =====
-- src/utils/config-loader.ts, getOrderedCompositeTargets and getCompositeRouteCandidates: the targets that
-- are tried, and their order.
use model_proxy_v.Base.{
  ◌≡◌, ◌⊎◌, refl, sym, false, not, List, [], ◌∷◌, map, Option, none, some, Text, ◌==◌, keep, In,
  All, arith, Bool-cases, inl, inr, some_injective, subst,
}
use mathlib.Core.List.{Perm}
use mathlib.Core.List.Perm
use model_proxy_v.Composite.Amounts.{Amounts, greater_of}
use model_proxy_v.Composite.Shares.{CompositeTargetConfig}
use model_proxy_v.Composite.Order.{find}
use model_proxy_v.Composite.Order.Laws.{find-In}
use model_proxy_v.Composite.Targets.{
  ModelRouteConfig, CompositeRouteCandidate, Target, get_composite_target_entries, resolve_targets,
  has_no_share, sort_by_fallback, move_first, order_targets, get_ordered_composite_targets,
  weight_of, sum_weights, draw_target, select_target, has_priority_order, move_selected,
  attempt_order, to_candidate, get_composite_route_candidates,
}
use model_proxy_v.Composite.Targets.Indices.{DistinctIndices, resolved-Distinct, keep-Distinct}
use model_proxy_v.Composite.Targets.Sorting.{
  move_first-Perm, sort_by_fallback-Perm, sort_by_fallback-IsOrdered, IsRanked,
  IsRanked-of_IsOrdered, sort_by_fallback-Distinct,
}

module _ (n : Amounts) (R : Type 0) where
  open n use {Amount, nought, one, at_most, plus, less, at_most_total}

  module _ (infinity : Amount) where
    order_unranked :
        (ts : List (Target n R))
        → find (λ t. (t.target_config).primary) ts ≡ none
        → order_targets n R infinity ts ≡ sort_by_fallback n R infinity ts
    unfolding order_targets
    order_unranked ts e = ground arith

    order_ranked :
        (ts : List (Target n R)) (p : Target n R)
        → find (λ t. (t.target_config).primary) ts ≡ some p
        → order_targets n R infinity ts ≡ move_first n R infinity p ts
    unfolding order_targets
    order_ranked ts p e = ground arith

    order_targets-Perm :
        (ts : List (Target n R)) (o : Option (Target n R))
        → find (λ t. (t.target_config).primary) ts ≡ o
        → DistinctIndices n R ts
        → Perm (order_targets n R infinity ts) ts
    order_targets-Perm ts none e d =
        subst (λ xs. Perm xs ts) (sym (order_unranked ts e)) (sort_by_fallback-Perm n R infinity ts)
    order_targets-Perm ts (some p) e d =
        subst (λ xs. Perm xs ts) (sym (order_ranked ts p e))
          (move_first-Perm n R infinity p ts d (find-In (λ t. (t.target_config).primary) p ts e))

    -- The first primary target stands first and the others follow in the order of the configuration; or
    -- there is no primary target, and each target is ahead of the next one.
    abbrev pub IsTargetOrder : List (Target n R) → List (Target n R) → Type 0
    IsTargetOrder eligible out =
        ((p : Target n R) × (find (λ t. (t.target_config).primary) eligible ≡ some p)
          × (out ≡ move_first n R infinity p eligible))
        ⊎ ((find (λ t. (t.target_config).primary) eligible ≡ none) × IsRanked n R infinity out)

    order_targets-IsTargetOrder :
        (ts : List (Target n R)) (o : Option (Target n R))
        → find (λ t. (t.target_config).primary) ts ≡ o
        → IsTargetOrder ts (order_targets n R infinity ts)
    order_targets-IsTargetOrder ts none e = inr (
      e,
      subst (IsRanked n R infinity) (sym (order_unranked ts e)) (
          IsRanked-of_IsOrdered n R infinity (sort_by_fallback n R infinity ts)
            (sort_by_fallback-IsOrdered n R infinity ts)),
    )
    order_targets-IsTargetOrder ts (some p) e = inl (p, e, order_ranked ts p e)

    draw_target-In :
        (r : Amount) (ts : List (Target n R)) (last : Option (Target n R)) (t : Target n R)
        → draw_target n R infinity r ts last ≡ some t
        → In t ts ⊎ (last ≡ some t)
    unfolding draw_target
    draw_target-In r [] last t h = inr h
    draw_target-In r (u ∷ us) last t h =
        elim (Bool-cases
          (at_most (less r (greater_of n nought (weight_of n R infinity u))) nought)) [
            | inl e ↦ inl (inl (ground arith))
            | inr e ↦
                elim (draw_target-In (less r (greater_of n nought (weight_of n R infinity u))) us
                  (some u) t (ground arith)) [
                    | inl i ↦ inl (inr i)
                    | inr f ↦ inl (inl (sym (some_injective f)))
                  ]
          ]

    select_target-In :
        (draw : Amount → Amount) (ts : List (Target n R)) (t : Target n R)
        → select_target n R infinity draw ts ≡ some t
        → In t ts
    unfolding select_target
    select_target-In draw [] t h = cc
    select_target-In draw (u ∷ us) t h =
        elim (Bool-cases (at_most (sum_weights n R infinity nought (u ∷ us)) nought)) [
          | inl e ↦ inl (ground arith)
          | inr e ↦
              elim (draw_target-In (draw (sum_weights n R infinity nought (u ∷ us))) (u ∷ us) none t
                (ground arith)) [ inl i ↦ i | inr f ↦ absurd (ground arith) ]
        ]

    move_selected-Perm :
        (ts : List (Target n R)) (o : Option (Target n R))
        → ((t : Target n R) → o ≡ some t → In t ts)
        → DistinctIndices n R ts
        → Perm (move_selected n R infinity ts o) ts
    move_selected-Perm ts none h d = Perm.rfl
    move_selected-Perm ts (some t) h d = move_first-Perm n R infinity t ts d (h t refl)

    attempt_order-Perm :
        (draw : Amount → Amount) (ts : List (Target n R))
        → DistinctIndices n R ts
        → Perm (attempt_order n R infinity draw ts) ts
    unfolding attempt_order
    attempt_order-Perm draw ts d = elim (Bool-cases (has_priority_order n R infinity ts)) [
      | inl e ↦ rw e Perm.rfl
      | inr e ↦
          rw e (
            move_selected-Perm ts (select_target n R infinity draw ts) (select_target-In draw ts) d)
    ]

    others-differ :
        (t : Target n R) (ts : List (Target n R))
        → All
            (λ (u : Target n R). (u.index == t.index) ≡ false)
            (keep (λ (u : Target n R). not (u.index == t.index)) ts)
    others-differ t [] = tt
    others-differ t (u ∷ us) = elim (Bool-cases (u.index == t.index)) [
      | inl e ↦ rw e (others-differ t us)
      | inr e ↦ rw e (e, others-differ t us)
    ]

    order_targets-Distinct :
        (ts : List (Target n R)) (o : Option (Target n R))
        → find (λ t. (t.target_config).primary) ts ≡ o
        → DistinctIndices n R ts
        → DistinctIndices n R (order_targets n R infinity ts)
    unfolding move_first
    order_targets-Distinct ts none e d =
        subst (DistinctIndices n R) (sym (order_unranked ts e))
          (sort_by_fallback-Distinct n R infinity ts d)
    order_targets-Distinct ts (some p) e d =
        subst (DistinctIndices n R) (sym (order_ranked ts p e)) (
          others-differ p ts,
          keep-Distinct n R (λ (u : Target n R). not (u.index == p.index)) ts d,
        )

    pub get_ordered_composite_targets-IsTargetOrder :
        (route_of : Text → Option (ModelRouteConfig R))
        (config : List (Text × Option (CompositeTargetConfig Amount))) (targets : List (Target n R))
        → resolve_targets n R route_of 0 (get_composite_target_entries n R config) ≡ some targets
        → (ordered : List (Target n R)) × (get_ordered_composite_targets n R infinity route_of
              config
            ≡ some (
              ordered,
              map (λ (t : Target n R). t.target_model_name) (keep (has_no_share n R) targets),
            ))
          × Perm ordered (keep (λ t. not (has_no_share n R t)) targets)
          × IsTargetOrder (keep (λ t. not (has_no_share n R t)) targets) ordered
    unfolding get_ordered_composite_targets
    get_ordered_composite_targets-IsTargetOrder route_of config targets h =
        let eligible = keep (λ t. not (has_no_share n R t)) targets in
        let d =
          keep-Distinct n R (λ t. not (has_no_share n R t)) targets
            (resolved-Distinct n R route_of 0 (get_composite_target_entries n R config) targets
              h).1 in
        (
          order_targets n R infinity eligible,
          ground arith,
          order_targets-Perm eligible (find (λ t. (t.target_config).primary) eligible) refl d,
          order_targets-IsTargetOrder eligible (find (λ t. (t.target_config).primary) eligible)
              refl,
        )

    -- Let the routes of all targets resolve. Whatever is drawn, getCompositeRouteCandidates gives one
    -- candidate for each target whose share is not 0, and no other.
    pub get_composite_route_candidates-Perm :
        (route_of : Text → Option (ModelRouteConfig R)) (draw : Amount → Amount)
        (config : List (Text × Option (CompositeTargetConfig Amount))) (targets : List (Target n R))
        → resolve_targets n R route_of 0 (get_composite_target_entries n R config) ≡ some targets
        → (out : List (CompositeRouteCandidate Amount R)) × (get_composite_route_candidates n R
              infinity route_of draw config
            ≡ some out)
          × Perm out
              (map (to_candidate n R infinity) (keep (λ t. not (has_no_share n R t)) targets))
    unfolding get_composite_route_candidates get_ordered_composite_targets
    get_composite_route_candidates-Perm route_of draw config targets h =
        let eligible = keep (λ t. not (has_no_share n R t)) targets in
        let ordered = order_targets n R infinity eligible in
        let found = find (λ t. (t.target_config).primary) eligible in
        let d =
          keep-Distinct n R (λ t. not (has_no_share n R t)) targets
            (resolved-Distinct n R route_of 0 (get_composite_target_entries n R config) targets
              h).1 in
        (
          map (to_candidate n R infinity) (attempt_order n R infinity draw ordered),
          ground arith,
          Perm.map (to_candidate n R infinity) (
              Perm.trans
                (attempt_order-Perm draw ordered (order_targets-Distinct eligible found refl d))
                (order_targets-Perm eligible found refl d)),
        )
