-- ===== src/Routes/Resolve/Termination.antt =====
-- The fuel of getModelRouteConfig is enough: the function meets the recursive equation of the source.
use model_proxy_v.Base.{
  ℕ, ◌≤◌, ◌<◌, false, not, List, [], ◌∷◌, Option, some, Text, same, same→eq, includes, length, keep,
  Bool-cases, ◌≡◌, sym, subst, inl, inr, arith,
}
use model_proxy_v.Base.Table.{get}
use model_proxy_v.Composite.Amounts.{Amounts}
use model_proxy_v.Routes.Models.{Models}
use model_proxy_v.Routes.Resolve.{
  Config, FullRoute, effective_name, route_step, route_on_fuel, unvisited,
}

module _ {V : Type 0} where
  abbrev left_of : List Text → List (Text × V) → ℕ
  left_of visited m = length (keep (λ (e : Text × V). not (includes e.0 visited)) m)

  left_of-cons-le :
      (e : Text) (visited : List Text) (m : List (Text × V))
      → left_of (e ∷ visited) m ≤ left_of visited m
  left_of-cons-le e visited [] = omega arith
  left_of-cons-le e visited ((k, v) ∷ m) = ground (arith, left_of-cons-le e visited m)

  -- An alias that is expanded is one less that is not.
  pub left_of-cons-lt :
      (e : Text) (visited : List Text) (m : List (Text × V)) (v : V)
      → get e m ≡ some v
      → includes e visited ≡ false
      → left_of (e ∷ visited) m < left_of visited m
  unfolding get
  left_of-cons-lt e visited [] v g h = absurd (ground arith)
  left_of-cons-lt e visited ((k, w) ∷ m) v g h = elim (Bool-cases (same k e)) [
    | inl here ↦
        let new : includes k visited ≡ false =
          subst (λ j. includes j visited ≡ false) (sym (same→eq k e here)) h in
        ground (arith, left_of-cons-le e visited m)
    | inr other ↦ ground (arith, left_of-cons-lt e visited m v)
  ]

module _ (n : Amounts) (T : Type 0) (infinity : n.Amount) where
  open n use {Amount}

  abbrev Resolver : Type 0
  Resolver = Text → Option (FullRoute n T infinity)

  module _ (c : Config n T infinity) (hour day : ℕ) (draw : List Text → Amount → Amount) where
    abbrev on_fuel : ℕ → List Text → Models → Resolver
    on_fuel = route_on_fuel n T infinity c hour day draw

    abbrev step : Resolver → List Text → Models → Resolver
    step = route_step n T infinity c hour day draw

    abbrev open_aliases : List Text → ℕ
    open_aliases = unvisited n T infinity c hour day draw

    abbrev effective : Text → Text
    effective = effective_name n T infinity c hour day draw
