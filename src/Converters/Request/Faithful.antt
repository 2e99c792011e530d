-- ===== src/Converters/Request/Faithful.antt =====
-- What a converted request keeps of the request.
use model_proxy_v.Base.{
  Bool, true, false, List, [], ◌∷◌, Option, none, some, Text, All, ◌≡◌, ◌⊎◌, inl, inr, refl, ap,
}
use model_proxy_v.Values.{Json}
use model_proxy_v.Converters.Schema.Clean.{IsClean, recursively_clean_schema-IsClean}
use model_proxy_v.Converters.Messages.Pairing.{IsAnswered, IsFollowed, convert_messages-IsFollowed}
use model_proxy_v.Converters.Thinking.{
  ThinkingConfig, disabled, enabled, unknown_type, ThinkingConversionOptions, OpenAiThinking,
  convert_claude_thinking,
}
use model_proxy_v.Converters.Request.{
  ClaudeTool, ClaudeToolChoice, no_choice, auto_or_any, this_tool, no_tool, unknown_choice,
  ClaudeRequest, OpenAiTool, OpenAiToolChoice, function, OpenAiRequest, convert_tools,
  convert_tool_choice, choice_for, options_for, convert_claude_to_openai_request,
}

-- The tool that a choice forces.
abbrev pub forced_by : ClaudeToolChoice → Option Text
forced_by (this_tool name) = some name
forced_by _ = none

abbrev pub forced : Option OpenAiToolChoice → Option Text
forced (some (function name)) = some name
forced _ = none

abbrev pub names : List ClaudeTool → List Text
names [] = []
names (t ∷ ts) = t.name ∷ names ts

abbrev pub converted_names : List OpenAiTool → List Text
converted_names [] = []
converted_names (t ∷ ts) = t.name ∷ converted_names ts

abbrev pub is_on : Option OpenAiThinking → Bool
is_on none = false
is_on (some t) = t.is_enabled

pub record IsFaithful {P : Type 0} (r : ClaudeRequest P) (o : OpenAiRequest P) : Type 0 where
  pub followed : IsFollowed [] o.messages
  pub same_tools : converted_names o.tools ≡ names r.tools
  pub clean_schemas : All (λ t. IsClean t.parameters) o.tools
  pub same_choice : forced o.tool_choice ≡ forced_by r.tool_choice
  pub effort_when_on : (o.reasoning_effort ≡ none) ⊎ (is_on o.thinking ≡ true)

same_names : (ts : List ClaudeTool) → converted_names (convert_tools ts) ≡ names ts
unfolding convert_tools
same_names [] = refl
same_names (t ∷ ts) = ap (◌∷◌ t.name) (same_names ts)

convert_tools-All : (ts : List ClaudeTool) → All (λ t. IsClean t.parameters) (convert_tools ts)
unfolding convert_tools
convert_tools-All [] = tt
convert_tools-All (t ∷ ts) =
    ((recursively_clean_schema-IsClean t.input_schema).0, convert_tools-All ts)

forced_choice :
    (c : ClaudeToolChoice) (tools : List OpenAiTool)
    → forced (choice_for (convert_tool_choice c) tools) ≡ forced_by c
forced_choice no_choice [] = refl
forced_choice no_choice (t ∷ ts) = refl
forced_choice auto_or_any tools = refl
forced_choice (this_tool name) tools = refl
forced_choice no_tool tools = refl
forced_choice unknown_choice [] = refl
forced_choice unknown_choice (t ∷ ts) = refl

effort_or_off :
    (thinking : Option ThinkingConfig) (o : ThinkingConversionOptions)
    → ((convert_claude_thinking thinking o).reasoning_effort ≡ none)
      ⊎ (is_on (convert_claude_thinking thinking o).config ≡ true)
unfolding convert_claude_thinking
effort_or_off none o = inl refl
effort_or_off (some disabled) o = inl refl
effort_or_off (some unknown_type) o = inl refl
effort_or_off (some (enabled budget)) o = inr refl

-- If in a request of Claude the message behind each one with tool calls holds exactly their results, then
-- in the converted request the tool messages stand right behind the calls that they answer, one for
-- each; the tools have the names of the request, in order, with clean schemas; the choice forces the tool
-- that the request forces, if any; and an effort is asked for only with thinking on.
pub convert_claude_to_openai_request-IsFaithful :
    {P : Type 0} (stringify : Json → Text) (model_name : Text) (o : ThinkingConversionOptions)
    (r : ClaudeRequest P)
    → IsAnswered [] r.messages
    → IsFaithful r (convert_claude_to_openai_request stringify model_name o r)
unfolding convert_claude_to_openai_request
convert_claude_to_openai_request-IsFaithful stringify model_name o r answered = record {
  followed = convert_messages-IsFollowed stringify r.system r.messages answered;
  same_tools = same_names r.tools;
  clean_schemas = convert_tools-All r.tools;
  same_choice = forced_choice r.tool_choice (convert_tools r.tools);
  effort_when_on = effort_or_off r.thinking (options_for o r);
}
