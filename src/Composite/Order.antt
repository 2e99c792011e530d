-- ===== src/Composite/Order.antt =====
-- src/index.ts, selectWeightedCompositeCandidate and orderCompositeCandidatesForRuntimeShare. A candidate
-- carries a number for its identity, by which `===` compares. `draw` is `Math.random() * total`.
pub mod Laws
pub mod Tests
use model_proxy_v.Base.{
  ℕ, Bool, false, not, List, [], ◌∷◌, Option, none, some, Text, if◌then◌else◌, ◌==◌, ltb, keep, any,
  length,
}
use model_proxy_v.Composite.Amounts.{Amounts, exceeds, greater_of}
use model_proxy_v.Composite.Shares.{
  CompositeTargetConfig, Shares, get_configured_composite_share, get_effective_composite_share,
}

pub record Candidate (A : Type 0) : Type 0 where
  pub id : ℕ
  pub model_name : Text
  pub target_config : CompositeTargetConfig A

-- `candidates.find(p)`
unfoldable pub find : {A : Type 0} → (A → Bool) → List A → Option A
find p [] = none
find p (c ∷ cs) = if p c then some c else find p cs

module _ (n : Amounts) where
  open n use {Amount, nought, at_most, plus, less}

  module _ (weight : Candidate Amount → Amount) where
    -- The sum, from the left, of the weights that are not negative.
    unfoldable pub total_weight : Amount → List (Candidate Amount) → Amount
    total_weight sum [] = sum
    total_weight sum (c ∷ cs) = total_weight (plus sum (greater_of n nought (weight c))) cs

    -- The loop over the candidates; the last one stands if rounding leaves a rest.
    unfoldable pub walk :
        Amount → List (Candidate Amount) → Option (Candidate Amount) → Option (Candidate Amount)
    walk remaining [] last = last
    walk remaining (c ∷ cs) last =
        let rest = less remaining (greater_of n nought (weight c)) in
        if at_most rest nought then some c else walk rest cs (some c)

    abbrev pub head_of : List (Candidate Amount) → Option (Candidate Amount)
    head_of [] = none
    head_of (c ∷ cs) = some c

    unfoldable pub select_weighted_composite_candidate :
        (Amount → Amount) → List (Candidate Amount) → Option (Candidate Amount)
    unfolding walk total_weight
    select_weighted_composite_candidate draw cs =
        if at_most (total_weight nought cs) nought
        then head_of cs
        else walk (draw (total_weight nought cs)) cs none

  unfoldable pub is_fallback : CompositeTargetConfig Amount → Bool
  is_fallback c = elim (c.fallback) [ none ↦ false | some f ↦ exceeds n f nought ]

  -- `[first, ...candidates.filter(candidate => candidate !== first)]`
  unfoldable pub put_first :
      List (Candidate Amount) → Option (Candidate Amount) → List (Candidate Amount)
  put_first cs none = cs
  put_first cs (some first) = first ∷ keep (λ c. not (c.id == first.id)) cs

  module _ (shares : Shares n) (alias : Text) (draw : Amount → Amount) where
    abbrev pub configured_of : Candidate Amount → Amount
    configured_of c = get_configured_composite_share n (c.target_config)

    abbrev pub effective_of : Candidate Amount → Amount
    effective_of c = get_effective_composite_share n shares alias (c.model_name) (configured_of c)

    -- The weights with a primary: its effective share, and what the others are configured to.
    abbrev pub weight_beside : Candidate Amount → Candidate Amount → Amount
    weight_beside primary c = if c.id == primary.id then effective_of primary else configured_of c

    unfoldable pub order_primary :
        List (Candidate Amount) → Candidate Amount → List (Candidate Amount)
    order_primary cs primary =
        if at_most (configured_of primary) (effective_of primary)
        then cs
        else put_first cs (select_weighted_composite_candidate (weight_beside primary) draw cs)

    unfoldable pub is_decayed : Candidate Amount → Bool
    is_decayed c = not (at_most (configured_of c) (effective_of c))

    unfoldable pub order_fallbacks :
        List (Candidate Amount) → List (Candidate Amount) → List (Candidate Amount)
    unfolding is_decayed
    order_fallbacks cs fallbacks =
        if ltb (length fallbacks) 2
        then cs
        else if any is_decayed fallbacks
        then put_first cs (select_weighted_composite_candidate effective_of draw fallbacks)
        else cs

    unfoldable pub order_composite_candidates_for_runtime_share :
        List (Candidate Amount) → List (Candidate Amount)
    order_composite_candidates_for_runtime_share cs =
        elim (find (λ c. (c.target_config).primary) cs) [
          | some primary ↦ order_primary cs primary
          | none ↦ order_fallbacks cs (keep (λ c. is_fallback (c.target_config)) cs)
        ]
