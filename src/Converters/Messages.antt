-- ===== src/Converters/Messages.antt =====
-- src/converters/claude-to-openai.ts, the messages of convertClaudeToOpenAIRequest (and of
-- convertClaudeTokenCountingToOpenAI, which builds the same). `stringify` is that of
-- src/utils/stringify.ts: JSON.stringify or a package in its place.
pub mod Pairing
use model_proxy_v.Base.{List, [], ◌∷◌, ◌++◌, Option, none, some, Text, codes, or_else, join_with}
use model_proxy_v.Values.{Json, str}
use model_proxy_v.Converters.{
  Block, text, image, tool_use, tool_result, thinking, Content, plain, blocks, Message, user,
  assistant, unknown_role, Part, text_part, image_url, ToolCall, Assistant, OpenAiMessage,
  system_message, user_text, user_parts, tool_message, assistant_message, or_object,
}

-- `${v}` of a field that may be missing
abbrev pub shown : Option Text → Text
shown none = codes "undefined"
shown (some s) = s

abbrev pub data_url : Option Text → Option Text → Text
data_url media_type image_data =
    codes "data:" ++ (shown media_type ++ (codes ";base64," ++ shown image_data))

-- convertClaudeContentToOpenAI of blocks; the empty list stands for its ''.
unfoldable pub parts_of : List Block → List Part
parts_of [] = []
parts_of (text s ∷ bs) = text_part s ∷ parts_of bs
parts_of (image media_type image_data ∷ bs) =
    image_url (data_url media_type image_data) ∷ parts_of bs
parts_of (_ ∷ bs) = parts_of bs

unfoldable pub non_tool_content : List Block → List Block
non_tool_content [] = []
non_tool_content (tool_result id content ∷ bs) = non_tool_content bs
non_tool_content (b ∷ bs) = b ∷ non_tool_content bs

-- `otherContent` as a message, where something of it converts.
abbrev pub other_message : List Part → List OpenAiMessage
other_message [] = []
other_message (p ∷ ps) = user_parts (p ∷ ps) ∷ []

-- The lists that the branch for an assistant fills.
pub record Filled : Type 0 where
  pub text_parts : List Text
  pub calls : List ToolCall
  pub thinking_parts : List Text

-- `parts.join('\n')`, where there are any
abbrev pub joined : List Text → Option Text
joined [] = none
joined (s ∷ ss) = some (join_with b'\n' (s ∷ ss))

abbrev pub assistant_of : Filled → Assistant
assistant_of f = record {
  content = or_else (joined f.text_parts) [];
  tool_calls = f.calls;
  reasoning = joined f.thinking_parts;
}

-- `system` of a request
pub data System : Type 0 where
  no_system : System
  system_text : Text → System
  system_blocks : List Text → System

abbrev pub system_messages : System → List OpenAiMessage
system_messages no_system = []
system_messages (system_text []) = []
system_messages (system_text (c ∷ s)) = system_message (c ∷ s) ∷ []
system_messages (system_blocks ss) = system_message (join_with b'\n' ss) ∷ []

abbrev pub blocks_of : Content → List Block
blocks_of (plain s) = []
blocks_of (blocks bs) = bs

module _ (stringify : Json → Text) where
  abbrev pub result_content : Option Json → Option Text
  result_content none = none
  result_content (some (str s)) = some s
  result_content (some v) = some (stringify v)

  -- extractToolResultsFromClaudeContent, each result as the message that it becomes.
  unfoldable pub tool_results : List Block → List OpenAiMessage
  tool_results [] = []
  tool_results (tool_result id content ∷ bs) =
      tool_message id (result_content content) ∷ tool_results bs
  tool_results (_ ∷ bs) = tool_results bs

  abbrev pub call_of : Text → Text → Option Json → ToolCall
  call_of id name input = record { id = id; name = name; arguments = stringify (or_object input) }

  abbrev pub add_block : Block → Filled → Filled
  add_block (text s) f = record f { text_parts = f.text_parts ++ s ∷ [] }
  add_block (tool_use id name input) f = record f { calls = f.calls ++ call_of id name input ∷ [] }
  add_block (thinking thought signature) f = record f {
    thinking_parts = f.thinking_parts ++ or_else thought [] ∷ [];
  }
  add_block _ f = f

  unfoldable pub add_blocks : List Block → Filled → Filled
  add_blocks [] f = f
  add_blocks (b ∷ bs) f = add_blocks bs (add_block b f)

  -- An assistant's message; a content that is a plain text is not read.
  unfoldable pub convert_assistant : Content → Assistant
  unfolding add_blocks
  convert_assistant content =
      assistant_of (
        add_blocks (blocks_of content)
          (record { text_parts = []; calls = []; thinking_parts = [] }))

  abbrev pub convert_message : Message → List OpenAiMessage
  convert_message (user (plain s)) = user_text s ∷ []
  convert_message (user (blocks bs)) =
      tool_results bs ++ other_message (parts_of (non_tool_content bs))
  convert_message (assistant content) = assistant_message (convert_assistant content) ∷ []
  convert_message unknown_role = []

  unfoldable pub convert_each : List Message → List OpenAiMessage
  convert_each [] = []
  convert_each (m ∷ ms) = convert_message m ++ convert_each ms

  -- `messages` of the converted request.
  unfoldable pub convert_messages : System → List Message → List OpenAiMessage
  unfolding convert_each
  convert_messages system ms = system_messages system ++ convert_each ms
