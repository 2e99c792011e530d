-- ===== src/Converters/Response.antt =====
-- src/converters/openai-to-claude.ts, convertOpenAIToClaudeResponse but for `usage`. `parse` is
-- JSON.parse (`none`: it throws). A finish reason that is a name of Object.prototype is left aside.
pub mod RoundTrip
use model_proxy_v.Base.{
  ℕ, zero, suc, ◌+◌, ◌-◌, Bool, true, List, [], ◌∷◌, ◌++◌, Option, none, some, Text, codes, same,
  starts_with, trim, drop, or_else, if◌then◌else◌,
}
use model_proxy_v.Values.{Json}
use model_proxy_v.Converters.{Block, text, tool_use, thinking, ToolCall}

abbrev pub synthetic_thinking_signature : Text
synthetic_thinking_signature = codes "synthetic"

abbrev pub mapped_reason : Text → Text
mapped_reason s =
    if same s (codes "stop")
    then codes "end_turn"
    else if same s (codes "length")
    then codes "max_tokens"
    else if same s (codes "tool_calls")
    then codes "tool_use"
    else if same s (codes "stop_sequence")
    then codes "end_turn"
    else if same s (codes "content_filter")
    then codes "content_filter"
    else codes "end_turn"

unfoldable pub convert_finish_reason : Option Text → Option Text
convert_finish_reason none = none
convert_finish_reason (some []) = none
convert_finish_reason (some (c ∷ s)) = some (mapped_reason (c ∷ s))

-- A part of an array of content.
pub data ReceivedPart : Type 0 where
  text_of : Text → ReceivedPart
  thought_of : Text → Option Text → ReceivedPart
  unread : ReceivedPart

-- `content`: null or absent, a text, an array, or another value as `String` shows it.
pub data ReceivedContent : Type 0 where
  no_content : ReceivedContent
  text_content : Text → ReceivedContent
  parts_content : List ReceivedPart → ReceivedContent
  shown_content : Text → ReceivedContent

-- `reasoning_content` where it is a text, and `tool_calls`.
pub record ReceivedMessage : Type 0 where
  pub content : ReceivedContent
  pub reasoning : Option Text
  pub tool_calls : Option (List ToolCall)

-- The first choice, if any, and what is read of the rest.
pub record OpenAiResponse : Type 0 where
  pub id : Option Text
  pub choice : Option (ReceivedMessage × Option Text)
  pub reasoning_item_id : Option Text
  pub signature : Option Text

pub record ClaudeResponse : Type 0 where
  pub id : Text
  pub model : Text
  pub content : List Block
  pub stop_reason : Option Text

abbrev pub add_char : ℕ → Option (Text × ℕ) → Option (Text × ℕ)
add_char c none = none
add_char c (some (s, n)) = some (c ∷ s, n)

-- ([\s\S]*?)<\/(?:thinking|think)>: the text before the first closing mark, and the length of the match,
-- of which `n` characters came before.
unfoldable pub until_close : ℕ → Text → Option (Text × ℕ)
until_close n [] = none
until_close n (c ∷ s) =
    let later = add_char c (until_close (suc n) s) in
    if starts_with (codes "</thinking>") (c ∷ s)
    then some ([], n + 11)
    else if starts_with (codes "</think>") (c ∷ s)
    then some ([], n + 8)
    else later

-- <(?:thinking|think)>([\s\S]*?)<\/(?:thinking|think)> at the start of a text.
unfoldable pub match_at : Text → Option (Text × ℕ)
match_at s =
    if starts_with (codes "<thinking>") s
    then until_close 10 (drop 10 s)
    else if starts_with (codes "<think>") s
    then until_close 7 (drop 7 s)
    else none

abbrev pub add_outside : ℕ → List Text × Text → List Text × Text
add_outside c (thoughts, outside) = (thoughts, c ∷ outside)

abbrev pub add_thought : Text → List Text × Text → List Text × Text
add_thought t (thoughts, outside) = (t ∷ thoughts, outside)

-- The loop over `exec`, and `replace(..., '')`: the marked texts, and what is outside of them; `skip`
-- characters of the last match are left.
unfoldable pub extract_thinking : ℕ → Text → List Text × Text
extract_thinking skip [] = ([], [])
extract_thinking (suc skip) (c ∷ s) = extract_thinking skip s
extract_thinking zero (c ∷ s) = elim (match_at (c ∷ s)) [
  | none ↦ add_outside c (extract_thinking zero s)
  | some (thought, n) ↦ add_thought thought (extract_thinking (n - 1) s)
]

abbrev pub concat_texts : List Text → Text
concat_texts [] = []
concat_texts (s ∷ ss) = s ++ concat_texts ss

-- `text ? [{ type: 'text', text }] : []`
abbrev pub text_block : Text → List Block
text_block [] = []
text_block (c ∷ s) = text (c ∷ s) ∷ []

abbrev pub unmarked_text : Text → List Text × Text → List Block
unmarked_text s ([], outside) = text s ∷ []
unmarked_text s (t ∷ thoughts, outside) = text_block (trim outside)

-- The text, thinking and signature of the parts.
pub record Collected : Type 0 where
  pub texts : Text
  pub thoughts : Text
  pub last_signature : Option Text

-- `if (signature) ...`
abbrev pub or_kept : Option Text → Option Text → Option Text
or_kept (some (c ∷ s)) kept = some (c ∷ s)
or_kept _ kept = kept

abbrev pub add_part : ReceivedPart → Collected → Collected
add_part (text_of s) p = record p { texts = p.texts ++ s }
add_part (thought_of s signature) p = record p {
  thoughts = p.thoughts ++ s;
  last_signature = or_kept signature p.last_signature;
}
add_part unread p = p

unfoldable pub collect_parts : List ReceivedPart → Collected → Collected
collect_parts [] p = p
collect_parts (q ∷ qs) p = collect_parts qs (add_part q p)

abbrev pub signature_of : OpenAiResponse → Option Text → Text
signature_of r own =
    or_else (or_kept own (or_kept r.reasoning_item_id (or_kept r.signature none)))
      synthetic_thinking_signature

abbrev pub thinking_block : OpenAiResponse → Text → Option Text → List Block
thinking_block r [] own = []
thinking_block r (c ∷ s) own = thinking (some (c ∷ s)) (some (signature_of r own)) ∷ []

abbrev pub blocks_of_parts : OpenAiResponse → Collected → List Block
blocks_of_parts r p = text_block p.texts ++ thinking_block r p.thoughts p.last_signature

abbrev pub blocks_of_text : OpenAiResponse → Text → List Text × Text → List Block
blocks_of_text r s found = unmarked_text s found ++ thinking_block r (concat_texts found.0) none

-- `if (content) { ... }`
unfoldable pub content_blocks : OpenAiResponse → ReceivedContent → List Block
unfolding extract_thinking match_at until_close collect_parts
content_blocks r no_content = []
content_blocks r (text_content []) = []
content_blocks r (text_content (c ∷ s)) = blocks_of_text r (c ∷ s) (extract_thinking zero (c ∷ s))
content_blocks r (parts_content qs) =
    blocks_of_parts r
      (collect_parts qs (record { texts = []; thoughts = []; last_signature = none }))
content_blocks r (shown_content s) = text s ∷ []

-- reasoning_content, in front of all else
abbrev pub reasoning_blocks : Option Text → List Block
reasoning_blocks (some (c ∷ s)) = thinking (some (c ∷ s)) (some synthetic_thinking_signature) ∷ []
reasoning_blocks _ = []

abbrev pub calls_of : Option (List ToolCall) → List ToolCall
calls_of none = []
calls_of (some calls) = calls

abbrev pub is_end_turn : Option Text → Bool
is_end_turn none = true
is_end_turn (some s) = same s (codes "end_turn")

unfoldable pub stop_reason_of : Option Text → List ToolCall → Option Text
unfolding convert_finish_reason
stop_reason_of finish_reason [] = convert_finish_reason finish_reason
stop_reason_of finish_reason (call ∷ calls) =
    if is_end_turn (convert_finish_reason finish_reason)
    then some (codes "tool_use")
    else convert_finish_reason finish_reason

module _ (parse : Text → Option Json) where
  abbrev pub add_use : ToolCall → Option Json → Option (List Block) → Option (List Block)
  add_use call none later = none
  add_use call (some input) none = none
  add_use call (some input) (some bs) = some (tool_use call.id call.name (some input) ∷ bs)

  -- `none`: the arguments of a call do not parse, and the conversion throws.
  unfoldable pub use_blocks : List ToolCall → Option (List Block)
  use_blocks [] = some []
  use_blocks (call ∷ calls) = add_use call (parse call.arguments) (use_blocks calls)

  abbrev pub behind : List Block → Option (List Block) → Option (List Block)
  behind bs none = none
  behind bs (some cs) = some (bs ++ cs)

  unfoldable pub convert_blocks : OpenAiResponse → ReceivedMessage → Option (List Block)
  unfolding content_blocks use_blocks
  convert_blocks r m =
      behind (reasoning_blocks m.reasoning ++ content_blocks r m.content)
        (use_blocks (calls_of m.tool_calls))

  abbrev pub response_with : Text → Text → Option Text → Option (List Block) → Option ClaudeResponse
  response_with id model stop none = none
  response_with id model stop (some bs) =
      some (record { id = id; model = model; content = bs; stop_reason = stop })

  abbrev pub convert_choice :
      OpenAiResponse → Text → Text → Option (ReceivedMessage × Option Text) → Option ClaudeResponse
  convert_choice r model id none =
      some (record { id = id; model = model; content = []; stop_reason = none })
  convert_choice r model id (some (m, finish_reason)) =
      response_with id model (stop_reason_of finish_reason (calls_of m.tool_calls))
        (convert_blocks r m)

  unfoldable pub convert_openai_to_claude_response :
      OpenAiResponse → Text → Text → Option ClaudeResponse
  unfolding convert_blocks stop_reason_of
  convert_openai_to_claude_response r model request_id =
      convert_choice r model (or_else (or_kept r.id none) request_id) r.choice
