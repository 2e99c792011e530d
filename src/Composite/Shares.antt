-- ===== src/Composite/Shares.antt =====
-- src/index.ts: the effective shares of composite targets, which fall on a failure and recover on a
-- success. The map compositeEffectiveShares is passed on.
pub mod Range
pub mod Tests
use model_proxy_v.Base.{
  Bool, true, not, List, ◌∷◌, ◌++◌, Option, none, some, Text, or_else, if◌then◌else◌,
}
use model_proxy_v.Base.Table.{get, set}
use model_proxy_v.Composite.Amounts.{Amounts, exceeds, greater_of, lesser_of}

-- `${alias}\u0000${targetModel}`
unfoldable pub composite_share_key : Text → Text → Text
composite_share_key alias target_model = alias ++ (0 ∷ target_model)

-- CompositeTargetConfig as far as the dispatch reads it: `share` and `fallback` where they are
-- numbers, and whether `primary` is true.
pub record CompositeTargetConfig (A : Type 0) : Type 0 where
  pub share : Option A
  pub primary : Bool
  pub fallback : Option A

module _ (n : Amounts) where
  open n use {Amount, nought, one, at_most, half, tenth, double}

  abbrev pub Shares : Type 0
  Shares = List (Text × Amount)

  -- `s > 0 ? s : 1`
  unfoldable pub normalized_share : Amount → Amount
  normalized_share s = if exceeds n s nought then s else one

  unfoldable pub get_configured_composite_share : CompositeTargetConfig Amount → Amount
  unfolding normalized_share
  get_configured_composite_share c = elim (c.share) [ none ↦ one | some s ↦ normalized_share s ]

  unfoldable pub get_effective_composite_share : Shares → Text → Text → Amount → Amount
  get_effective_composite_share shares alias target configured =
      or_else (get (composite_share_key alias target) shares) configured

  -- The share behind a failure: half, but not under a tenth of the configured one.
  unfoldable pub decayed : Amount → Amount → Amount
  decayed normalized previous = greater_of n (tenth normalized) (half previous)

  -- The share behind a success: twice, but not over the configured one.
  unfoldable pub recovered : Amount → Amount → Amount
  recovered normalized previous = lesser_of n normalized (double previous)

  unfoldable pub decay_effective_composite_share : Shares → Text → Text → Amount → Shares
  unfolding decayed get_effective_composite_share
  decay_effective_composite_share shares alias target configured =
      let normalized = normalized_share configured in
      set (composite_share_key alias target)
        (decayed normalized (get_effective_composite_share shares alias target normalized)) shares

  -- `next !== previous`
  abbrev pub is_changed : Amount → Amount → Bool
  is_changed a b = if at_most a b then not (at_most b a) else true

  unfoldable pub recover_effective_composite_share : Shares → Text → Text → Amount → Shares
  unfolding recovered get_effective_composite_share
  recover_effective_composite_share shares alias target configured =
      let normalized = normalized_share configured in
      let previous = get_effective_composite_share shares alias target normalized in
      let next = recovered normalized previous in
      if is_changed next previous
      then set (composite_share_key alias target) next shares
      else shares
