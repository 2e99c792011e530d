-- ===== src/Converters.antt =====
-- src/converters: the messages of the Claude API (src/types/claude.ts) and of the OpenAI API
-- (src/types/openai.ts) as the converters read and write them. A field that is absent is `none`.
pub mod Schema
pub mod Messages
pub mod Response
pub mod Thinking
pub mod Request
pub mod Events
pub mod Stream
pub mod Tests
use model_proxy_v.Base.{Bool, true, false, not, List, Option, none, some, Text, if◌then◌else◌}
use model_proxy_v.Values.{Json, null, bool, num, str, arr, obj, end, is_filled, is_zero}

-- A content block of Claude; `other` is a document, a search result or any unknown type.
pub data Block : Type 0 where
  text : Text → Block
  image : (media_type image_data : Option Text) → Block
  tool_use : (id name : Text) (input : Option Json) → Block
  tool_result : (tool_use_id : Text) (content : Option Json) → Block
  thinking : (thought signature : Option Text) → Block
  other : Block

pub data Content : Type 0 where
  plain : Text → Content
  blocks : List Block → Content

pub data Message : Type 0 where
  user : Content → Message
  assistant : Content → Message
  unknown_role : Message

-- A content part of OpenAI.
pub data Part : Type 0 where
  text_part : Text → Part
  image_url : Text → Part

pub record ToolCall : Type 0 where
  pub id : Text
  pub name : Text
  pub arguments : Text

-- `content`, `tool_calls` (empty where the field is absent) and `reasoning_content` of an assistant.
pub record Assistant : Type 0 where
  pub content : Text
  pub tool_calls : List ToolCall
  pub reasoning : Option Text

-- A message of OpenAI.
pub data OpenAiMessage : Type 0 where
  system_message : Text → OpenAiMessage
  user_text : Text → OpenAiMessage
  user_parts : List Part → OpenAiMessage
  tool_message : (tool_call_id : Text) (content : Option Text) → OpenAiMessage
  assistant_message : Assistant → OpenAiMessage

-- A value as a condition.
abbrev pub is_truthy : Json → Bool
is_truthy null = false
is_truthy (bool b) = b
is_truthy (num n) = not (is_zero n)
is_truthy (str s) = is_filled s
is_truthy (arr vs) = true
is_truthy (obj fs) = true

-- `v || {}`
abbrev pub or_object : Option Json → Json
or_object none = obj end
or_object (some v) = if is_truthy v then v else obj end
