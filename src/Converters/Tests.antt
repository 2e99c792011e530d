-- ===== src/Converters/Tests.antt =====
-- A small conversation in both formats.
use mathlib.Core.List.Perm
use model_proxy_v.Base.{
  ℕ, ◌≤◌, Bool, true, false, List, [], ◌∷◌, Option, none, some, Text, codes, ◌≡◌, refl, arith,
}
use model_proxy_v.Values.{Json, bool, str, obj, end, field}
use model_proxy_v.Converters.{
  Block, text, tool_use, tool_result, Message, user, assistant, plain, blocks, ToolCall, Assistant,
}
use model_proxy_v.Converters.Schema.{recursively_clean_schema}
use model_proxy_v.Converters.Schema.Clean.{IsClean, recursively_clean_schema-IsClean}
use model_proxy_v.Converters.Messages.{no_system, convert_assistant}
use model_proxy_v.Converters.Messages.Pairing.{IsAnswered}
use model_proxy_v.Converters.Response.{
  OpenAiResponse, extract_thinking, convert_blocks, stop_reason_of,
}
use model_proxy_v.Converters.Response.RoundTrip.{
  IsPlain, received, convert_assistant-convert_blocks,
}
use model_proxy_v.Converters.Thinking.{
  ThinkingConversionOptions, medium, budget_to_reasoning_effort, enabled,
}
use model_proxy_v.Converters.Request.{ClaudeRequest, no_choice, convert_claude_to_openai_request}
use model_proxy_v.Converters.Request.Faithful.{
  IsFaithful, convert_claude_to_openai_request-IsFaithful,
}

abbrev a_schema : Json
a_schema = obj (
    field (codes "type") (str (codes "string")) (
      field (codes "format") (str (codes "uri"))
        (field (codes "$schema") (str (codes "draft")) end)))

cleaned_schema :
    recursively_clean_schema a_schema ≡ obj (field (codes "type") (str (codes "string")) end)
unfolding recursively_clean_schema model_proxy_v.Values.prop model_proxy_v.Base.same
    model_proxy_v.Values.delete_prop
cleaned_schema = refl

recursively_clean_schema-IsClean_example :
    IsClean (recursively_clean_schema a_schema)
    × (recursively_clean_schema (recursively_clean_schema a_schema)
        ≡ recursively_clean_schema a_schema)
recursively_clean_schema-IsClean_example = recursively_clean_schema-IsClean a_schema

-- Every value is written as one text, and read as the empty object.
abbrev write_value : Json → Text
write_value v = codes "{}"

abbrev read_value : Text → Option Json
read_value s = some (obj end)

abbrev a_call : ToolCall
a_call = record { id = codes "call_1"; name = codes "ls"; arguments = codes "{}" }

abbrev an_answer : Assistant
an_answer = record { content = codes "ok"; tool_calls = a_call ∷ []; reasoning = some (codes "hm") }

abbrev bare_response : OpenAiResponse
bare_response = record { id = none; choice = none; reasoning_item_id = none; signature = none }

an_answer-IsPlain : IsPlain write_value read_value an_answer
unfolding model_proxy_v.Base.contains
an_answer-IsPlain = (
  (refl, refl),
  refl,
  (record { input = obj end; parsed = refl; filled = refl; written = refl }, tt),
)

convert_assistant-convert_blocks_example :
    (bs : List Block) × (convert_blocks read_value bare_response
        (received write_value read_value an_answer)
      ≡ some bs)
    × (convert_assistant write_value (blocks bs) ≡ an_answer)
convert_assistant-convert_blocks_example =
    convert_assistant-convert_blocks write_value read_value bare_response an_answer
      an_answer-IsPlain

-- An assistant's message whose content is a plain text is sent empty.
text_lost :
    convert_assistant write_value (plain (codes "hi"))
    ≡ record { content = []; tool_calls = []; reasoning = none }
unfolding convert_assistant
text_lost = refl

thought_found : extract_thinking 0 (codes "a<think>b</thinking>c") ≡ (codes "b" ∷ [], codes "ac")
unfolding extract_thinking model_proxy_v.Converters.Response.match_at model_proxy_v.Base.starts_with
    model_proxy_v.Converters.Response.until_close
thought_found = refl

tools_stop : stop_reason_of (some (codes "stop")) (a_call ∷ []) ≡ some (codes "tool_use")
unfolding stop_reason_of model_proxy_v.Base.same
tools_stop = refl

abbrev no_options : ThinkingConversionOptions
no_options = record {
  budget_to_effort_low = none;
  budget_to_effort_medium = none;
  budget_to_effort_high = none;
  explicit_reasoning_effort = none;
  task_budget_total = none;
}

some_effort : budget_to_reasoning_effort 3000 no_options ≡ medium
unfolding budget_to_reasoning_effort
some_effort = refl

abbrev a_talk : List Message
a_talk =
    user (plain (codes "list"))
    ∷ assistant (blocks (text (codes "ok") ∷ tool_use (codes "call_1") (codes "ls") none ∷ []))
    ∷ user (blocks (text (codes "so") ∷ tool_result (codes "call_1") none ∷ []))
    ∷ []

a_talk-IsAnswered : IsAnswered [] a_talk
a_talk-IsAnswered = (Perm.rfl, (refl, (Perm.rfl, refl)))

abbrev a_request : ClaudeRequest ℕ
a_request = record {
  system = no_system;
  messages = a_talk;
  stream = true;
  passed = 1024;
  tools = record { name = codes "ls"; description = none; input_schema = a_schema } ∷ [];
  tool_choice = no_choice;
  thinking = some (enabled (some 3000));
  reasoning_effort = none;
  output_effort = some (codes "xhigh");
  task_budget_total = none;
}

convert_claude_to_openai_request-IsFaithful_example :
    IsFaithful a_request
      (convert_claude_to_openai_request write_value (codes "gpt") no_options a_request)
convert_claude_to_openai_request-IsFaithful_example =
    convert_claude_to_openai_request-IsFaithful write_value (codes "gpt") no_options a_request
      a_talk-IsAnswered
