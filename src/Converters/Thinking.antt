-- ===== src/Converters/Thinking.antt =====
-- src/converters/claude-to-openai.ts, normalizeEffort, convertClaudeThinkingToOpenAI and
-- budgetToReasoningEffort. Budgets and thresholds are whole numbers; a threshold that is not configured
-- is `none`.
pub mod Monotone
use model_proxy_v.Base.{
  ℕ, Bool, true, false, not, ◌||◌, Option, none, some, Text, codes, same, is_some, if◌then◌else◌,
  ◌==◌, leb,
}
use model_proxy_v.Routes.Models.{or_option}

pub data Effort : Type 0 where
  low medium high maximum : Effort

unfoldable pub normalize_effort : Option Text → Option Effort
normalize_effort none = none
normalize_effort (some s) =
    if same s (codes "low")
    then some low
    else if same s (codes "medium")
    then some medium
    else if same s (codes "high")
    then some high
    else if same s (codes "max") || same s (codes "xhigh")
    then some maximum
    else none

-- `thinking` of Claude by its type: false or disabled; true, enabled or adaptive; any other.
pub data ThinkingConfig : Type 0 where
  disabled : ThinkingConfig
  enabled : (budget_tokens : Option ℕ) → ThinkingConfig
  unknown_type : ThinkingConfig

pub record ThinkingConversionOptions : Type 0 where
  pub budget_to_effort_low : Option ℕ
  pub budget_to_effort_medium : Option ℕ
  pub budget_to_effort_high : Option ℕ
  pub explicit_reasoning_effort : Option Effort
  pub task_budget_total : Option ℕ

abbrev pub has_thresholds : ThinkingConversionOptions → Bool
has_thresholds o =
    is_some o.budget_to_effort_low
    || is_some o.budget_to_effort_medium
    || is_some o.budget_to_effort_high

-- `threshold !== undefined && (budget >= threshold || threshold === 0)`
abbrev pub reaches : ℕ → Option ℕ → Bool
reaches budget none = false
reaches budget (some t) = leb t budget || t == 0

unfoldable pub budget_to_reasoning_effort : ℕ → ThinkingConversionOptions → Effort
budget_to_reasoning_effort budget o =
    if not (has_thresholds o)
    then (if leb 4096 budget then high else if leb 2048 budget then medium else low)
    else if reaches budget o.budget_to_effort_high
    then high
    else if reaches budget o.budget_to_effort_medium
    then medium
    else low

-- `thinking` and `reasoning_effort` of a request of OpenAI.
pub record OpenAiThinking : Type 0 where
  pub is_enabled : Bool
  pub budget : Option ℕ

pub record ConvertedThinking : Type 0 where
  pub config : Option OpenAiThinking
  pub reasoning_effort : Option Effort

abbrev pub effort_of : ThinkingConversionOptions → Option ℕ → Option Effort
effort_of o none = none
effort_of o (some budget) =
    if has_thresholds o then some (budget_to_reasoning_effort budget o) else none

unfoldable pub convert_claude_thinking :
    Option ThinkingConfig → ThinkingConversionOptions → ConvertedThinking
unfolding budget_to_reasoning_effort
convert_claude_thinking none o = record { config = none; reasoning_effort = none }
convert_claude_thinking (some disabled) o = record {
  config = some (record { is_enabled = false; budget = none });
  reasoning_effort = none;
}
convert_claude_thinking (some unknown_type) o = record { config = none; reasoning_effort = none }
convert_claude_thinking (some (enabled budget_tokens)) o =
    let given = or_option budget_tokens o.task_budget_total in
    record {
      config = some (record { is_enabled = true; budget = given });
      reasoning_effort = or_option o.explicit_reasoning_effort (effort_of o given);
    }
