-- ===== src/Converters/Events.antt =====
-- src/converters/streaming.ts: the state of createStreamTransformer, the lines that it reads and the
-- events that it sends.
use model_proxy_v.Base.{ℕ, Bool, List, ◌++◌, Option, Text}

pub data BlockKind : Type 0 where
  text_kind : BlockKind
  thinking_kind : BlockKind
  tool_kind : (id name : Text) → BlockKind

-- The events that are sent; a number is the index of a block.
pub data StreamEvent : Type 0 where
  message_start : StreamEvent
  block_start : ℕ → BlockKind → StreamEvent
  text_delta : ℕ → Text → StreamEvent
  thinking_delta : ℕ → Text → StreamEvent
  signature_delta : ℕ → Text → StreamEvent
  json_delta : ℕ → Text → StreamEvent
  block_stop : ℕ → StreamEvent
  message_delta : (stop_reason : Text) → StreamEvent
  message_stop : StreamEvent

pub record StreamCall : Type 0 where
  pub id : Text
  pub name : Text
  pub args : Text
  pub claude_index : ℕ
  pub started : Bool

-- `thinking_index` is set when the block of thinking is started.
pub record Stream : Type 0 where
  pub block_index : ℕ
  pub thinking_index : Option ℕ
  pub accumulated : Text
  pub signature : Text
  pub calls : List (ℕ × StreamCall)
  pub has_tool_calls : Bool

pub record CallDelta : Type 0 where
  pub index : ℕ
  pub id : Text
  pub name : Text
  pub arguments : Text

-- A text that is absent is empty. `tool_calls` is `none` where the field is absent.
pub record Delta : Type 0 where
  pub content : Text
  pub reasoning : Text
  pub signature : Text
  pub tool_calls : Option (List CallDelta)

-- A line: a chunk, with the delta of its first choice, if any; or the mark of the end, with the finish
-- reason of the last chunk that was read along with it, if any.
pub data StreamLine : Type 0 where
  chunk : (delta : Option Delta) (reasoning_item_id response_signature : Option Text) → StreamLine
  done : (last : Option (Option Text)) → StreamLine

abbrev pub Step : Type 0
Step = List StreamEvent × Stream

abbrev pub then_step : Step → (Stream → Step) → Step
then_step (es, s) next = let (fs, t) = next s in (es ++ fs, t)
