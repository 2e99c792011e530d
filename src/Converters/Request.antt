-- ===== src/Converters/Request.antt =====
-- src/converters/claude-to-openai.ts, convertClaudeToOpenAIRequest and
-- convertClaudeTokenCountingToOpenAI.
pub mod Faithful
use model_proxy_v.Base.{ℕ, Bool, List, [], ◌∷◌, Option, none, some, Text, or_else}
use model_proxy_v.Values.{Json}
use model_proxy_v.Routes.Models.{or_option}
use model_proxy_v.Converters.{Message, OpenAiMessage}
use model_proxy_v.Converters.Schema.{recursively_clean_schema}
use model_proxy_v.Converters.Messages.{System, convert_messages}
use model_proxy_v.Converters.Thinking.{
  Effort, normalize_effort, ThinkingConfig, ThinkingConversionOptions, OpenAiThinking,
  convert_claude_thinking,
}

pub record ClaudeTool : Type 0 where
  pub name : Text
  pub description : Option Text
  pub input_schema : Json

-- `tool_choice` of Claude by its type: absent; auto or any; a tool; none; any other.
pub data ClaudeToolChoice : Type 0 where
  no_choice : ClaudeToolChoice
  auto_or_any : ClaudeToolChoice
  this_tool : Text → ClaudeToolChoice
  no_tool : ClaudeToolChoice
  unknown_choice : ClaudeToolChoice

-- The fields that are only passed on have the type `P`; a `stream` that is absent is false.
pub record ClaudeRequest (P : Type 0) : Type 0 where
  pub system : System
  pub messages : List Message
  pub stream : Bool
  pub passed : P
  pub tools : List ClaudeTool
  pub tool_choice : ClaudeToolChoice
  pub thinking : Option ThinkingConfig
  pub reasoning_effort : Option Text
  pub output_effort : Option Text
  pub task_budget_total : Option ℕ

pub record OpenAiTool : Type 0 where
  pub name : Text
  pub description : Text
  pub parameters : Json

pub data OpenAiToolChoice : Type 0 where
  auto : OpenAiToolChoice
  none_of_them : OpenAiToolChoice
  function : Text → OpenAiToolChoice

-- `tools` is empty where the field is absent.
pub record OpenAiRequest (P : Type 0) : Type 0 where
  pub model : Text
  pub messages : List OpenAiMessage
  pub stream : Bool
  pub include_usage : Bool
  pub passed : P
  pub tools : List OpenAiTool
  pub tool_choice : Option OpenAiToolChoice
  pub thinking : Option OpenAiThinking
  pub reasoning_effort : Option Effort

abbrev pub convert_tool : ClaudeTool → OpenAiTool
convert_tool t = record {
  name = t.name;
  description = or_else t.description [];
  parameters = recursively_clean_schema t.input_schema;
}

unfoldable pub convert_tools : List ClaudeTool → List OpenAiTool
convert_tools [] = []
convert_tools (t ∷ ts) = convert_tool t ∷ convert_tools ts

abbrev pub convert_tool_choice : ClaudeToolChoice → Option OpenAiToolChoice
convert_tool_choice no_choice = none
convert_tool_choice auto_or_any = some auto
convert_tool_choice (this_tool name) = some (function name)
convert_tool_choice no_tool = some none_of_them
convert_tool_choice unknown_choice = none

-- The choice that is set, for the converted tools.
abbrev pub choice_for : Option OpenAiToolChoice → List OpenAiTool → Option OpenAiToolChoice
choice_for (some c) tools = some c
choice_for none [] = none
choice_for none (t ∷ ts) = some auto

-- The options with the efforts and the budget of the request.
abbrev pub options_for :
    {P : Type 0} → ThinkingConversionOptions → ClaudeRequest P → ThinkingConversionOptions
options_for o r = record o {
  explicit_reasoning_effort =
      or_option o.explicit_reasoning_effort
        (or_option (normalize_effort r.reasoning_effort) (normalize_effort r.output_effort));
  task_budget_total = r.task_budget_total;
}

unfoldable pub convert_claude_to_openai_request :
    {P : Type 0}
    → (Json → Text)
    → Text
    → ThinkingConversionOptions
    → ClaudeRequest P
    → OpenAiRequest P
unfolding convert_messages convert_tools convert_claude_thinking normalize_effort
    recursively_clean_schema
convert_claude_to_openai_request stringify model_name o r =
    let converted = convert_claude_thinking r.thinking (options_for o r) in
    record {
      model = model_name;
      messages = convert_messages stringify r.system r.messages;
      stream = r.stream;
      include_usage = r.stream;
      passed = r.passed;
      tools = convert_tools r.tools;
      tool_choice = choice_for (convert_tool_choice r.tool_choice) (convert_tools r.tools);
      thinking = converted.config;
      reasoning_effort = converted.reasoning_effort;
    }

pub record OpenAiTokenCountingRequest : Type 0 where
  pub model : Text
  pub messages : List OpenAiMessage
  pub max_tokens : ℕ
  pub tools : List OpenAiTool
  pub thinking : Option OpenAiThinking
  pub reasoning_effort : Option Effort

-- The options are taken as they are, without the efforts and the budget of the request.
unfoldable pub convert_claude_token_counting :
    (Json → Text)
    → Text
    → ThinkingConversionOptions
    → System
    → List Message
    → List ClaudeTool
    → Option ThinkingConfig
    → OpenAiTokenCountingRequest
unfolding convert_messages convert_tools convert_claude_thinking recursively_clean_schema
convert_claude_token_counting stringify model_name o system ms tools thinking =
    let converted = convert_claude_thinking thinking o in
    record {
      model = model_name;
      messages = convert_messages stringify system ms;
      max_tokens = 1;
      tools = convert_tools tools;
      thinking = converted.config;
      reasoning_effort = converted.reasoning_effort;
    }
