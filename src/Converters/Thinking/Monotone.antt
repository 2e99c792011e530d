-- ===== src/Converters/Thinking/Monotone.antt =====
-- A larger budget never asks for less effort.
use model_proxy_v.Base.{ℕ, ◌≤◌, true, Option, none, some, ◌≡◌, arith}
use model_proxy_v.Converters.Thinking.{
  Effort, low, medium, high, maximum, ThinkingConversionOptions, reaches,
  budget_to_reasoning_effort,
}

abbrev pub level : Effort → ℕ
level low = 0
level medium = 1
level high = 2
level maximum = 3

reaches_more : (b c : ℕ) (t : Option ℕ) → b ≤ c → reaches b t ≡ true → reaches c t ≡ true
reaches_more b c none l h = absurd (ground arith)
reaches_more b c (some t) l h = ground arith

-- A larger budget is given no lower effort, whatever thresholds are configured, and none is given more
-- than `high`.
pub budget_to_reasoning_effort_mono :
    (o : ThinkingConversionOptions) (b c : ℕ)
    → b ≤ c
    → (level (budget_to_reasoning_effort b o) ≤ level (budget_to_reasoning_effort c o))
      × (level (budget_to_reasoning_effort c o) ≤ 2)
unfolding budget_to_reasoning_effort
budget_to_reasoning_effort_mono o b c l = ground (
  arith,
  reaches_more b c o.budget_to_effort_high l,
  reaches_more b c o.budget_to_effort_medium l,
)
