-- ===== src/Composite/Shares/Tests.antt =====
-- Shares over whole numbers: a target configured to 40.
use model_proxy_v.Base.{ℕ, ◌≡◌, refl, true, false, List, [], ◌∷◌, some, none, Text, codes, leb}
use model_proxy_v.Base.Table.{get, set}
use model_proxy_v.Composite.Amounts.{whole_amounts}
use model_proxy_v.Composite.Shares.{
  composite_share_key, Shares, get_effective_composite_share, decay_effective_composite_share,
  recover_effective_composite_share,
}

abbrev fast : Text
fast = codes "fast"

abbrev glm : Text
glm = codes "glm"

halved :
    decay_effective_composite_share whole_amounts [] fast glm 40
    ≡ (composite_share_key fast glm, 20) ∷ []
unfolding decay_effective_composite_share set model_proxy_v.Composite.Shares.normalized_share get
halved = refl

-- Under the floor of 4 nothing is taken away.
floored :
    decay_effective_composite_share whole_amounts
      ((composite_share_key fast glm, 5) ∷ [])
      fast
      glm
      40
    ≡ (composite_share_key fast glm, 4) ∷ []
unfolding decay_effective_composite_share set model_proxy_v.Base.same composite_share_key
    model_proxy_v.Composite.Shares.normalized_share get
floored = refl

capped :
    recover_effective_composite_share whole_amounts
      ((composite_share_key fast glm, 30) ∷ [])
      fast
      glm
      40
    ≡ (composite_share_key fast glm, 40) ∷ []
unfolding recover_effective_composite_share model_proxy_v.Composite.Shares.normalized_share get
    model_proxy_v.Base.same composite_share_key set
capped = refl
