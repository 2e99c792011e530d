-- ===== src/Routes/Tests.antt =====
-- Routes of a small configuration, with an alias that is sound and one that names itself.
use model_proxy_v.Base.{
  ℕ, zero, suc, ◌<◌, Bool, true, false, List, [], ◌∷◌, ◌++◌, Option, none, some, Text, codes, same,
  same→eq, includes, All, Bool-cases, if◌then◌else◌, some_injective, ◌≡◌, ◌↔◌, refl, sym, ap, subst,
  inl, inr, arith,
}
use model_proxy_v.Base.Table.{get}
use model_proxy_v.Composite.Amounts.{whole_amounts}
use model_proxy_v.Composite.Shares.{CompositeTargetConfig}
use model_proxy_v.Composite.Targets.{
  ModelRouteConfig, get_composite_target_entries, get_ordered_composite_targets, resolve_targets,
  has_no_share,
}
use model_proxy_v.Schedule.{resolve_schedule_target}
use model_proxy_v.Routes.Models.{
  RouteConfig, RouteRest, Models, RouteEntry, listed, named, section, parse_api_key,
}
use model_proxy_v.Routes.Lookup.{wildcard_matches, get_model_config}
use model_proxy_v.Routes.Resolve.{
  RoutingConfig, CompositeConfig, FullRoute, get_model_route_config, effective_name, direct_route,
}
use model_proxy_v.Routes.Resolve.Acyclic.{Descends, get_model_route_config_total}

abbrev some_models : Models
some_models =
    (
      codes "gpt",
      section (
          (codes "base_url", named (codes "https://api.example.com"))
          ∷ (codes "api_key", named (codes "x-api-key: sk-1"))
          ∷ (codes "gpt-*", listed (codes "gpt-*" ∷ []))
          ∷ []),
    )
    ∷ []

abbrev some_base : RouteConfig ℕ
some_base = record { models = some some_models; transforms = []; transform_defaults = [] }

abbrev fallback_at : ℕ → Option (CompositeTargetConfig ℕ)
fallback_at i = some (record { share = none; primary = false; fallback = some i })

abbrev fast_config : CompositeConfig ℕ
fast_config = (codes "gpt-5", fallback_at 1) ∷ (codes "gpt-4", fallback_at 2) ∷ []

abbrev sound : RoutingConfig ℕ ℕ
sound = record { base = some_base; composite = (codes "fast", fast_config) ∷ []; schedule = [] }

abbrev looping : RoutingConfig ℕ ℕ
looping = record {
  base = some_base;
  composite = (codes "fast", (codes "fast", none) ∷ []) ∷ [];
  schedule = [];
}

abbrev no_draw : List Text → ℕ → ℕ
no_draw chain total = 0

abbrev route_in : RoutingConfig ℕ ℕ → Text → Option (FullRoute whole_amounts ℕ 99)
route_in c = get_model_route_config whole_amounts ℕ 99 c 0 0 no_draw []

fast_route :
    route_in sound (codes "fast")
    ≡ some (record {
      model_alias = codes "gpt-5";
      rest = record {
        target_url = codes "https://api.example.com";
        api_key = some (codes "sk-1");
        upstream_mode = codes "openai-completions";
        section_name = some (codes "gpt");
        transforms = [];
        max_tokens = none;
      };
    })
unfolding get_model_route_config get same resolve_schedule_target get_ordered_composite_targets
    resolve_targets model_proxy_v.Routes.Resolve.select_route
    model_proxy_v.Composite.Targets.has_priority_order model_proxy_v.Composite.Targets.order_targets
    model_proxy_v.Composite.Order.find has_no_share model_proxy_v.Composite.Targets.sort_by_fallback
    model_proxy_v.Composite.Targets.insert_sorted model_proxy_v.Composite.Targets.precedes
    direct_route get_model_config wildcard_matches model_proxy_v.Base.ends_with
    model_proxy_v.Base.contains model_proxy_v.Base.join_with model_proxy_v.Base.split_on
    model_proxy_v.Base.starts_with model_proxy_v.Base.trim get_composite_target_entries
    model_proxy_v.Routes.Models.resolve_model_route_from_entry
    model_proxy_v.Routes.Models.resolve_transforms
fast_route = refl

cycle : route_in looping (codes "fast") ≡ none
unfolding get_model_route_config get same resolve_schedule_target get_ordered_composite_targets
    resolve_targets
cycle = refl

abbrev rank : Text → ℕ
rank name = if same name (codes "fast") then 1 else 0

fast_only :
    (e : Text) (config : CompositeConfig ℕ)
    → get e sound.composite ≡ some config
    → (codes "fast" ≡ e) × (fast_config ≡ config)
unfolding get
fast_only e config h = elim (Bool-cases (same (codes "fast") e)) [
  | inl here ↦ (
    same→eq (codes "fast") e here,
    some_injective
        (subst (λ (b : Bool). (if b then some fast_config else none) ≡ some config) here h),
  )
  | inr other ↦ absurd (ground arith)
]

fast_descends :
    All
      (λ t. rank (effective_name whole_amounts ℕ 99 sound 0 0 no_draw t.0) < rank (codes "fast"))
      (get_composite_target_entries whole_amounts (RouteRest ℕ) fast_config)
unfolding get_composite_target_entries effective_name resolve_schedule_target get same
fast_descends = omega arith

sound-Descends : Descends whole_amounts ℕ 99 sound 0 0 no_draw rank
sound-Descends e config h =
    let (name, k) = fast_only e config h in
    subst
      (λ (d : Text).
        All (λ t. rank (effective_name whole_amounts ℕ 99 sound 0 0 no_draw t.0) < rank d)
          (get_composite_target_entries whole_amounts (RouteRest ℕ) config))
      name
      (subst
        (λ (d : CompositeConfig ℕ).
          All
            (λ t.
              rank (effective_name whole_amounts ℕ 99 sound 0 0 no_draw t.0) < rank (codes "fast"))
            (get_composite_target_entries whole_amounts (RouteRest ℕ) d))
        k fast_descends)

get_model_route_config_total_example :
    (r : FullRoute whole_amounts ℕ 99) × (route_in sound (codes "fast") ≡ some r)
get_model_route_config_total_example =
    get_model_route_config_total whole_amounts ℕ 99 sound 0 0 no_draw rank sound-Descends
      (codes "fast")

-- No hyphen is asked for.
no_hyphen : wildcard_matches (codes "gpt5") (codes "gpt-*") (listed (codes "x" ∷ [])) ≡ true
unfolding wildcard_matches model_proxy_v.Base.ends_with same model_proxy_v.Base.starts_with
no_hyphen = refl
