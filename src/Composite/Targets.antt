-- ===== src/Composite/Targets.antt =====
-- src/utils/config-loader.ts, getOrderedCompositeTargets, its selectWeightedCompositeCandidate and
-- getCompositeRouteCandidates. `route_of` is getModelRouteConfig, which resolves the route of a target
-- (`none`: it throws, as on a cycle of aliases); Routes.Resolve gives it. `infinity` is
-- Number.POSITIVE_INFINITY.
pub mod Indices
pub mod Sorting
pub mod Laws
pub mod Tests
use model_proxy_v.Base.{
  ℕ, suc, Bool, false, not, ◌&&◌, ◌||◌, List, [], ◌∷◌, map, Option, none, some, Text, codes,
  includes, if◌then◌else◌, ◌==◌, leb, keep, any,
}
use model_proxy_v.Composite.Amounts.{Amounts, exceeds, greater_of}
use model_proxy_v.Composite.Shares.{CompositeTargetConfig}
use model_proxy_v.Composite.Order.{find}
use model_proxy_v.KeyStore.Slots.{or_text}

abbrev pub composite_meta_keys : List Text
composite_meta_keys =
    codes "token_limit" ∷ codes "fusion_options" ∷ codes "toolset" ∷ codes "decision" ∷ []

-- ModelRouteConfig: the alias, and all else.
pub record ModelRouteConfig (R : Type 0) : Type 0 where
  pub model_alias : Text
  pub rest : R

pub record CompositeResolvedTarget (A R : Type 0) : Type 0 where
  pub target_model_name : Text
  pub target_config : CompositeTargetConfig A
  pub route : ModelRouteConfig R
  pub index : ℕ

pub record CompositeRouteCandidate (A R : Type 0) : Type 0 where
  pub model_name : Text
  pub route : ModelRouteConfig R
  pub target_config : CompositeTargetConfig A

module _ (n : Amounts) (R : Type 0) where
  open n use {Amount, nought, one, at_most, plus, less}

  abbrev pub Target : Type 0
  Target = CompositeResolvedTarget Amount R

  unfoldable pub get_composite_target_entries :
      List (Text × Option (CompositeTargetConfig Amount))
      → List (Text × Option (CompositeTargetConfig Amount))
  get_composite_target_entries = keep (λ e. not (includes (e.0) composite_meta_keys))

  -- `targetConfig || {}`
  abbrev pub config_of : Option (CompositeTargetConfig Amount) → CompositeTargetConfig Amount
  config_of none = record { share = none; primary = false; fallback = none }
  config_of (some c) = c

  -- The targets with their routes; the first route that throws ends it.
  unfoldable pub resolve_targets :
      (Text → Option (ModelRouteConfig R))
      → ℕ
      → List (Text × Option (CompositeTargetConfig Amount))
      → Option (List Target)
  resolve_targets route_of i [] = some []
  resolve_targets route_of i ((name, c) ∷ entries) = elim (route_of name) [
    | none ↦ none
    | some r ↦ elim (resolve_targets route_of (suc i) entries) [
      | none ↦ none
      | some targets ↦ some (
          record { target_model_name = name; target_config = config_of c; route = r; index = i }
          ∷ targets)
    ]
  ]

  -- `share === 0`
  unfoldable pub has_no_share : Target → Bool
  has_no_share t = elim ((t.target_config).share) [
    | none ↦ false
    | some s ↦ at_most s nought && at_most nought s
  ]

  unfoldable pub has_fallback : Target → Bool
  has_fallback t = elim ((t.target_config).fallback) [ none ↦ false | some f ↦ exceeds n f nought ]

  module _ (infinity : Amount) where
    -- The fallback number, or infinity where there is none that is positive.
    unfoldable pub normalized_fallback : Target → Amount
    normalized_fallback t = elim ((t.target_config).fallback) [
      | none ↦ infinity
      | some f ↦ if exceeds n f nought then f else infinity
    ]

    -- The comparison of `sort`: the left one does not come behind the right one.
    unfoldable pub precedes : Target → Target → Bool
    unfolding normalized_fallback
    precedes left right =
        let l = normalized_fallback left in
        let r = normalized_fallback right in
        if at_most l r && at_most r l then leb (left.index) (right.index) else at_most l r

    unfoldable pub insert_sorted : Target → List Target → List Target
    insert_sorted t [] = t ∷ []
    insert_sorted t (u ∷ us) = if precedes t u then t ∷ u ∷ us else u ∷ insert_sorted t us

    -- `eligible.slice().sort(...)`
    unfoldable pub sort_by_fallback : List Target → List Target
    sort_by_fallback [] = []
    sort_by_fallback (t ∷ ts) = insert_sorted t (sort_by_fallback ts)

    -- `[first, ...targets.filter(candidate => candidate !== first)]`
    unfoldable pub move_first : Target → List Target → List Target
    move_first t ts = t ∷ keep (λ (u : Target). not (u.index == t.index)) ts

    unfoldable pub order_targets : List Target → List Target
    order_targets eligible = elim (find (λ t. (t.target_config).primary) eligible) [
      | some primary ↦ move_first primary eligible
      | none ↦ sort_by_fallback eligible
    ]

    -- The ordered targets; the names of the skipped ones are those of the targets with no share.
    unfoldable pub get_ordered_composite_targets :
        (Text → Option (ModelRouteConfig R))
        → List (Text × Option (CompositeTargetConfig Amount))
        → Option (List Target × List Text)
    unfolding get_composite_target_entries
    get_ordered_composite_targets route_of config =
        elim (resolve_targets route_of 0 (get_composite_target_entries config)) [
          | none ↦ none
          | some targets ↦ some (
            order_targets (keep (λ t. not (has_no_share t)) targets),
            map (λ (t : Target). t.target_model_name) (keep has_no_share targets),
          )
        ]

    -- `share ?? 1`
    abbrev pub weight_of : Target → Amount
    weight_of t = elim ((t.target_config).share) [ none ↦ one | some s ↦ s ]

    unfoldable pub sum_weights : Amount → List Target → Amount
    sum_weights sum [] = sum
    sum_weights sum (t ∷ ts) = sum_weights (plus sum (greater_of n nought (weight_of t))) ts

    unfoldable pub draw_target : Amount → List Target → Option Target → Option Target
    draw_target remaining [] last = last
    draw_target remaining (t ∷ ts) last =
        let rest = less remaining (greater_of n nought (weight_of t)) in
        if at_most rest nought then some t else draw_target rest ts (some t)

    -- selectWeightedCompositeCandidate; `draw` is `Math.random() * total`.
    unfoldable pub select_target : (Amount → Amount) → List Target → Option Target
    unfolding sum_weights draw_target
    select_target draw [] = none
    select_target draw (t ∷ ts) =
        if at_most (sum_weights nought (t ∷ ts)) nought
        then some t
        else draw_target (draw (sum_weights nought (t ∷ ts))) (t ∷ ts) none

    unfoldable pub has_priority_order : List Target → Bool
    unfolding has_fallback
    has_priority_order = any (λ t. (t.target_config).primary || has_fallback t)

    abbrev pub move_selected : List Target → Option Target → List Target
    move_selected ts none = ts
    move_selected ts (some t) = move_first t ts

    unfoldable pub attempt_order : (Amount → Amount) → List Target → List Target
    unfolding has_priority_order select_target
    attempt_order draw ordered =
        if has_priority_order ordered
        then ordered
        else move_selected ordered (select_target draw ordered)

    unfoldable pub to_candidate : Target → CompositeRouteCandidate Amount R
    to_candidate t = record {
      model_name = t.target_model_name;
      route = record {
        model_alias = or_text ((t.route).model_alias) (t.target_model_name);
        rest = (t.route).rest;
      };
      target_config = t.target_config;
    }

    -- getCompositeRouteCandidates for a configured alias.
    unfoldable pub get_composite_route_candidates :
        (Text → Option (ModelRouteConfig R))
        → (Amount → Amount)
        → List (Text × Option (CompositeTargetConfig Amount))
        → Option (List (CompositeRouteCandidate Amount R))
    get_composite_route_candidates route_of draw config =
        elim (get_ordered_composite_targets route_of config) [
          | none ↦ none
          | some (ordered, skipped) ↦ some (map to_candidate (attempt_order draw ordered))
        ]
