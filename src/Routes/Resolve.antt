-- ===== src/Routes/Resolve.antt =====
-- src/utils/config-loader.ts, getModelRouteConfig and resolveCompositeModelRoute. `none` for a route:
-- the source throws, since an alias is expanded within itself. The clock and the draws of
-- `Math.random()` are arguments, the draws by the chain of aliases that are being expanded.
pub mod Termination
pub mod Acyclic
use model_proxy_v.Base.{
  ℕ, zero, suc, not, List, [], ◌∷◌, Option, none, some, Text, includes, if◌then◌else◌, length, keep,
  or_else,
}
use model_proxy_v.Base.Table.{get}
use model_proxy_v.KeyStore.Slots.{or_text}
use model_proxy_v.Schedule.{ScheduleConfig, resolve_schedule_target}
use model_proxy_v.Composite.Amounts.{Amounts}
use model_proxy_v.Composite.Shares.{CompositeTargetConfig}
use model_proxy_v.Composite.Targets.{
  ModelRouteConfig, Target, get_ordered_composite_targets, select_target, has_priority_order,
}
use model_proxy_v.Routes.Models.{
  RouteConfig, RouteRest, Route, Models, resolve_model_route_from_entry, get_default_model_route,
}
use model_proxy_v.Routes.Lookup.{Found, get_model_config}

-- A composite alias, as `Object.entries` gives it.
abbrev pub CompositeConfig : Type 0 → Type 0
CompositeConfig A = List (Text × Option (CompositeTargetConfig A))

pub record RoutingConfig (A T : Type 0) : Type 0 where
  pub base : RouteConfig T
  pub composite : List (Text × CompositeConfig A)
  pub schedule : List (Text × ScheduleConfig)

abbrev pub of_pair : {T : Type 0} → Route T → ModelRouteConfig (RouteRest T)
of_pair (alias, rest) = record { model_alias = alias; rest = rest }

module _ (n : Amounts) (T : Type 0) (infinity : n.Amount) where
  open n use {Amount}

  abbrev pub Config : Type 0
  Config = RoutingConfig Amount T

  abbrev pub FullRoute : Type 0
  FullRoute = ModelRouteConfig (RouteRest T)

  -- The route of the target that is selected; no target: `undefined`.
  abbrev pub route_of_target : Option (Target n (RouteRest T)) → Option FullRoute
  route_of_target none = none
  route_of_target (some t) = some (record {
    model_alias = or_text ((t.route).model_alias) (t.target_model_name);
    rest = (t.route).rest;
  })

  abbrev pub first_target : List (Target n (RouteRest T)) → Option (Target n (RouteRest T))
  first_target [] = none
  first_target (t ∷ ts) = some t

  unfoldable pub select_route : (Amount → Amount) → List (Target n (RouteRest T)) → Option FullRoute
  select_route draw ordered = route_of_target (
      if has_priority_order n (RouteRest T) infinity ordered
      then first_target ordered
      else select_target n (RouteRest T) infinity draw ordered)

  abbrev pub direct_of : Config → Text → Option Found → FullRoute
  direct_of c name none = of_pair (get_default_model_route c.base)
  direct_of c name (some f) =
      of_pair (resolve_model_route_from_entry c.base f.entry f.category_config name f.category)

  -- resolveModelRouteFromConfig, or the default route
  unfoldable pub direct_route : Config → Models → Text → FullRoute
  direct_route c models name = direct_of c name (get_model_config name models)

  -- resolveCompositeModelRoute with its ordered targets, or the direct route
  abbrev pub composite_or_direct :
      FullRoute
      → (Amount → Amount)
      → Option (List (Target n (RouteRest T)) × List Text)
      → Option FullRoute
  composite_or_direct direct draw none = none
  composite_or_direct direct draw (some (ordered, skipped)) =
      some (or_else (select_route draw ordered) direct)

  -- `proxyConfig.composite?.[effectiveName]`
  abbrev pub expand :
      (Text → Option FullRoute)
      → FullRoute
      → (Amount → Amount)
      → Option (CompositeConfig Amount)
      → Option FullRoute
  expand route_of direct draw none = some direct
  expand route_of direct draw (some config) =
      composite_or_direct direct draw
        (get_ordered_composite_targets n (RouteRest T) infinity route_of config)

  module _ (c : Config) (hour day : ℕ) (draw : List Text → Amount → Amount) where
    -- `scheduledTarget ?? modelName`
    unfoldable pub effective_name : Text → Text
    effective_name name = or_else (resolve_schedule_target (get name c.schedule) hour day) name

    -- The call for a name, where `route_of` makes the calls for its targets.
    unfoldable pub route_step :
        (Text → Option FullRoute) → List Text → Models → Text → Option FullRoute
    route_step route_of visited models name =
        if includes name visited
        then none
        else expand route_of (direct_route c models name) (draw visited) (get name c.composite)

    -- getModelRouteConfig on fuel, which bounds how deep aliases are expanded.
    unfoldable pub route_on_fuel : ℕ → List Text → Models → Text → Option FullRoute
    route_on_fuel zero visited models name = none
    route_on_fuel (suc fuel) visited models name =
        route_step (λ target. route_on_fuel fuel (effective_name name ∷ visited) models target)
          visited models (effective_name name)

    -- The composite aliases that are not being expanded.
    unfoldable pub unvisited : List Text → ℕ
    unvisited visited = length (keep (λ e. not (includes e.0 visited)) c.composite)

    abbrev pub with_models : List Text → Text → Option Models → Option FullRoute
    with_models visited name none = some (of_pair (get_default_model_route c.base))
    with_models visited name (some models) =
        route_on_fuel (suc (unvisited visited)) visited models name

    unfoldable pub get_model_route_config : List Text → Text → Option FullRoute
    unfolding route_on_fuel route_step effective_name unvisited
    get_model_route_config visited name = with_models visited name ((c.base).models)
