-- ===== src/Composite/Order/Tests.antt =====
-- Orders of three candidates over whole numbers.
use model_proxy_v.Base.{ℕ, ◌≡◌, ◌*◌, refl, true, false, List, [], ◌∷◌, some, none, Text, codes, All}
use model_proxy_v.Composite.Amounts.{whole_amounts}
use model_proxy_v.Composite.Shares.{
  composite_share_key, Shares, get_effective_composite_share, get_configured_composite_share,
}
use model_proxy_v.Composite.Order.{Candidate, order_composite_candidates_for_runtime_share}
use model_proxy_v.Composite.Order.Laws.{IsReordering, IsHealthy, order-IsReordering}

abbrev first : Candidate ℕ
first = record {
  id = 0;
  model_name = codes "glm";
  target_config = record { share = some 40; primary = true; fallback = none };
}

abbrev second : Candidate ℕ
second = record {
  id = 1;
  model_name = codes "kimi";
  target_config = record { share = some 10; primary = false; fallback = some 1 };
}

abbrev third : Candidate ℕ
third = record {
  id = 2;
  model_name = codes "qwen";
  target_config = record { share = none; primary = false; fallback = none };
}

abbrev all : List (Candidate ℕ)
all = first ∷ second ∷ third ∷ []

-- The primary fell to 4; the draw passes it by.
abbrev fallen : Shares whole_amounts
fallen = (composite_share_key (codes "fast") (codes "glm"), 4) ∷ []

passed_by :
    order_composite_candidates_for_runtime_share whole_amounts fallen (codes "fast") (λ t. 9) all
    ≡ second ∷ first ∷ third ∷ []
unfolding order_composite_candidates_for_runtime_share model_proxy_v.Composite.Order.find
    model_proxy_v.Composite.Order.order_primary get_configured_composite_share
    get_effective_composite_share model_proxy_v.Base.Table.get model_proxy_v.Base.same
    composite_share_key model_proxy_v.Composite.Order.put_first
    model_proxy_v.Composite.Order.select_weighted_composite_candidate
passed_by = refl

order-IsReordering_example :
    IsReordering whole_amounts all (
      order_composite_candidates_for_runtime_share whole_amounts fallen (codes "fast") (λ t. 9) all)
order-IsReordering_example =
    order-IsReordering whole_amounts fallen (codes "fast") (λ t. 9) all
      ((refl, (refl, tt)), ((refl, tt), (tt, tt)))

all-IsHealthy : All (IsHealthy whole_amounts [] (codes "fast") (λ t. 9)) all
unfolding get_effective_composite_share get_configured_composite_share model_proxy_v.Base.Table.get
all-IsHealthy = (refl, (refl, (refl, tt)))
