-- ===== src/Routes/Resolve/Acyclic.antt =====
-- Every name has a route where composite aliases do not refer to one another in a cycle.
use model_proxy_v.Base.{
  ℕ, zero, suc, ◌<◌, false, List, [], ◌∷◌, Option, none, some, Text, same, same→eq, includes, All,
  or_else, Bool-cases, Option-cases, ◌≡◌, refl, ap, inl, inr, ◌⊎◌, arith,
}
use model_proxy_v.Base.Table.{get}
use model_proxy_v.Composite.Amounts.{Amounts}
use model_proxy_v.Composite.Shares.{CompositeTargetConfig}
use model_proxy_v.Composite.Targets.{
  Target, get_composite_target_entries, resolve_targets, config_of,
}
use model_proxy_v.Composite.Targets.Laws.{get_ordered_composite_targets-IsTargetOrder}
use model_proxy_v.Routes.Models.{RouteRest, Models, get_default_model_route}
use model_proxy_v.Routes.Resolve.{
  CompositeConfig, Config, FullRoute, expand, direct_route, effective_name, route_step,
  route_on_fuel, unvisited, with_models, get_model_route_config, of_pair, composite_or_direct,
  select_route,
}
use model_proxy_v.Routes.Resolve.Termination.{left_of-cons-lt}

All-mono {ℓ κ ν} :
    {A : Type ℓ} (P : A → Type κ) (Q : A → Type ν) (xs : List A)
    → ((x : A) → P x → Q x)
    → All P xs
    → All Q xs
All-mono P Q [] f h = tt
All-mono P Q (x ∷ xs) f h = (f x h.0, All-mono P Q xs f h.1)

-- What is ranked above all of the chain is not in it.
includes_below :
    (rank : Text → ℕ) (e : Text) (visited : List Text)
    → All (λ v. rank e < rank v) visited
    → includes e visited ≡ false
includes_below rank e [] h = refl
includes_below rank e (v ∷ visited) h = elim (Bool-cases (same e v)) [
  | inl here ↦ let same_rank : rank e ≡ rank v = ap rank (same→eq e v here) in absurd (omega arith)
  | inr other ↦ rw other (includes_below rank e visited h.1)
]

module _ (n : Amounts) (T : Type 0) (infinity : n.Amount) where
  open n use {Amount}

  abbrev HasRoute : (Text → Option (FullRoute n T infinity)) → Text → Type 0
  HasRoute route_of name = (r : FullRoute n T infinity) × (route_of name ≡ some r)

  resolve_targets_total :
      (route_of : Text → Option (FullRoute n T infinity)) (i : ℕ)
      (entries : List (Text × Option (CompositeTargetConfig Amount)))
      → All (λ t. HasRoute route_of t.0) entries
      → (targets : List (Target n (RouteRest T))) × (resolve_targets n
            (RouteRest T)
            route_of
            i
            entries
          ≡ some targets)
  unfolding resolve_targets
  resolve_targets_total route_of i [] h = ([], refl)
  resolve_targets_total route_of i ((name, c) ∷ entries) h =
      let (r, e) = h.0 in
      let (ts, k) = resolve_targets_total route_of (suc i) entries h.1 in
      (
        record {
          target_model_name = name;
          target_config = config_of n (RouteRest T) c;
          route = r;
          index = i;
        }
            ∷ ts,
        ground arith,
      )

  expand_total :
      (route_of : Text → Option (FullRoute n T infinity)) (direct : FullRoute n T infinity)
      (draw : Amount → Amount) (config : CompositeConfig Amount)
      → All (λ t. HasRoute route_of t.0) (get_composite_target_entries n (RouteRest T) config)
      → (r : FullRoute n T infinity) × (expand n T infinity route_of direct draw (some config)
          ≡ some r)
  expand_total route_of direct draw config h =
      let (targets, e) =
        resolve_targets_total route_of 0 (get_composite_target_entries n (RouteRest T) config) h in
      let (ordered, k, p, o) =
        get_ordered_composite_targets-IsTargetOrder n (RouteRest T) infinity route_of config targets
          e in
      (
        or_else (select_route n T infinity draw ordered) direct,
        ap (composite_or_direct n T infinity direct draw) k,
      )

  module _ (c : Config n T infinity) (hour day : ℕ) (draw : List Text → Amount → Amount) where
    abbrev served_name : Text → Text
    served_name = effective_name n T infinity c hour day draw

    -- Each target of a composite alias is ranked below the alias, by the name that the schedule serves.
    abbrev pub Descends : (Text → ℕ) → Type 0
    Descends rank =
        (e : Text) (config : CompositeConfig Amount)
        → get e c.composite ≡ some config
        → All (λ t. rank (served_name t.0) < rank e)
            (get_composite_target_entries n (RouteRest T) config)

    module _ (rank : Text → ℕ) (descends : Descends rank) (models : Models) where
      route_on_fuel_total :
          (fuel : ℕ) (visited : List Text) (name : Text)
          → unvisited n T infinity c hour day draw visited < fuel
          → All (λ v. rank (served_name name) < rank v) visited
          → HasRoute (route_on_fuel n T infinity c hour day draw fuel visited models) name
      unfolding route_on_fuel route_step unvisited
      route_on_fuel_total zero visited name h below = absurd (omega arith)
      route_on_fuel_total (suc fuel) visited name h below =
          let e : Text = served_name name in
          let new : includes e visited ≡ false = includes_below rank e visited below in
          elim (Option-cases (get e c.composite)) [
            | inl direct ↦ (direct_route n T infinity c models e, rw (new, direct))
            | inr (config, found) ↦
                let fewer = left_of-cons-lt e visited c.composite config found new in
                let (r, k) =
                  expand_total
                    (λ target.
                      route_on_fuel n T infinity c hour day draw fuel (e ∷ visited) models target)
                    (direct_route n T infinity c models e) (draw visited) config
                    (All-mono (λ t. rank (served_name t.0) < rank e)
                      (λ t.
                        HasRoute
                          (λ target.
                            route_on_fuel n T infinity c hour day draw fuel (e ∷ visited) models
                              target)
                          t.0)
                      (get_composite_target_entries n (RouteRest T) config)
                      (λ t lower. route_on_fuel_total fuel (e ∷ visited) t.0 (omega arith) (
                        lower,
                        All-mono (λ v. rank e < rank v) (λ v. rank (served_name t.0) < rank v)
                            visited (λ v higher. omega arith) below,
                      ))
                      (descends e config found)) in
                (r, rw (new, found) k)
          ]

      with_models_total :
          (name : Text) (m : Option Models)
          → (m ≡ none) ⊎ (m ≡ some models)
          → HasRoute (λ asked. with_models n T infinity c hour day draw [] asked m) name
      with_models_total name m (inl e) = (of_pair (get_default_model_route c.base), rw e)
      with_models_total name m (inr e) =
          let (r, k) =
            route_on_fuel_total (suc (unvisited n T infinity c hour day draw [])) [] name
              (omega arith) tt in
          (r, rw e k)

    -- If some ranking puts each target of a composite alias, by the name that the schedule serves for
    -- it, below the alias, then getModelRouteConfig finds a route for every name and never throws.
    pub get_model_route_config_total :
        (rank : Text → ℕ)
        → Descends rank
        → (name : Text)
        → (r : FullRoute n T infinity) × (get_model_route_config n T infinity c hour day draw []
              name
            ≡ some r)
    unfolding get_model_route_config
    get_model_route_config_total rank descends name = elim (Option-cases (c.base).models) [
      | inl e ↦ with_models_total rank descends [] name (c.base).models (inl e)
      | inr (models, e) ↦ with_models_total rank descends models name (c.base).models (inr e)
    ]
