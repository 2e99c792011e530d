-- ===== src/Composite/Targets/Tests.antt =====
-- An alias of four targets over whole numbers.
use model_proxy_v.Base.{
  ℕ, ◌≡◌, refl, true, false, not, List, [], ◌∷◌, Option, some, none, Text, codes, map, keep,
}
use mathlib.Core.List.{Perm}
use model_proxy_v.Composite.Amounts.{whole_amounts}
use model_proxy_v.Composite.Shares.{CompositeTargetConfig}
use model_proxy_v.Composite.Targets.{
  ModelRouteConfig, CompositeRouteCandidate, CompositeResolvedTarget, Target,
  get_composite_target_entries, resolve_targets, has_no_share, get_ordered_composite_targets,
  to_candidate, get_composite_route_candidates,
}
use model_proxy_v.Composite.Targets.Laws.{get_composite_route_candidates-Perm}

abbrev fallback_only : ℕ → CompositeTargetConfig ℕ
fallback_only i = record { share = none; primary = false; fallback = some i }

abbrev config : List (Text × Option (CompositeTargetConfig ℕ))
config =
    (codes "a", some (fallback_only 2))
    ∷ (codes "token_limit", none)
    ∷ (codes "b", none)
    ∷ (codes "c", some (record { share = some 0; primary = false; fallback = some 1 }))
    ∷ (codes "d", some (fallback_only 1))
    ∷ []

abbrev route_of : Text → Option (ModelRouteConfig ℕ)
route_of name = some (record { model_alias = []; rest = 7 })

abbrev target : Text → CompositeTargetConfig ℕ → ℕ → Target whole_amounts ℕ
target name c i = record {
  target_model_name = name;
  target_config = c;
  route = record { model_alias = []; rest = 7 };
  index = i;
}

abbrev targets : List (Target whole_amounts ℕ)
targets =
    target (codes "a") (fallback_only 2) 0
    ∷ target (codes "b") (record { share = none; primary = false; fallback = none }) 1
    ∷ target (codes "c") (record { share = some 0; primary = false; fallback = some 1 }) 2
    ∷ target (codes "d") (fallback_only 1) 3
    ∷ []

resolved :
    resolve_targets whole_amounts ℕ route_of 0 (get_composite_target_entries whole_amounts ℕ config)
    ≡ some targets
unfolding resolve_targets get_composite_target_entries model_proxy_v.Base.same
resolved = refl

by_fallback :
    get_ordered_composite_targets whole_amounts ℕ 999 route_of config
    ≡ some (
      target (codes "d") (fallback_only 1) 3
          ∷ target (codes "a") (fallback_only 2) 0
          ∷ target (codes "b") (record { share = none; primary = false; fallback = none }) 1
          ∷ [],
      codes "c" ∷ [],
    )
unfolding get_ordered_composite_targets resolve_targets model_proxy_v.Base.same
    model_proxy_v.Composite.Targets.order_targets has_no_share model_proxy_v.Composite.Order.find
    model_proxy_v.Composite.Targets.sort_by_fallback model_proxy_v.Composite.Targets.insert_sorted
    model_proxy_v.Composite.Targets.precedes
by_fallback = refl

get_composite_route_candidates-Perm_example :
    (out : List (CompositeRouteCandidate ℕ ℕ)) × (get_composite_route_candidates whole_amounts ℕ 999
        route_of
        (λ t. 0)
        config
      ≡ some out)
    × Perm out (
        map
          (to_candidate whole_amounts ℕ 999)
          (keep (λ t. not (has_no_share whole_amounts ℕ t)) targets))
get_composite_route_candidates-Perm_example =
    get_composite_route_candidates-Perm whole_amounts ℕ 999 route_of (λ t. 0) config targets
      resolved
