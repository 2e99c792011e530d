-- ===== src/Composite/Plans/Choice.antt =====
-- The decision service may move a candidate to the front, and loses none.
use mathlib.Core.List.{Perm}
use mathlib.Core.List.Perm
use model_proxy_v.Base.{true, false, not, List, [], ◌∷◌, Text, same, keep, All, ◌⊎◌, ◌≡◌}
use model_proxy_v.Composite.Plans.{Decision, choice}

module _ {C : Type 0} (name_of : C → Text) where
  -- No two candidates have one name, as the keys of an object.
  abbrev pub DistinctNames : List C → Type 0
  DistinctNames [] = Unit
  DistinctNames (c ∷ cs) = All (λ d. same (name_of c) (name_of d) ≡ false) cs × DistinctNames cs

  -- The candidates are as they were, or a confident answer names one, which stands in front of the
  -- others in their order; none is lost or doubled.
  abbrev pub IsDecided : Decision → List C → List C → Type 0
  IsDecided answer cs out =
      Perm out cs
      × ((out ≡ cs)
          ⊎ ((name : Text) × (c : C) × (answer ≡ choice name true)
              × (name_of c ≡ name)
              × (out ≡ c ∷ keep (λ d. not (same (name_of d) name)) cs)))
