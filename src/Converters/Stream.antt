-- ===== src/Converters/Stream.antt =====
-- src/converters/streaming.ts, createStreamTransformer over the parsed lines of a stream that has begun.
-- Token counts, which are in no event here, are left out. A `Stream` is the state between two lines.
pub mod Calls
pub mod Proper
pub mod Message
pub mod Tests
use model_proxy_v.Base.{
  ℕ, zero, suc, ◌-◌, Bool, true, false, not, ◌&&◌, ◌||◌, List, [], ◌∷◌, ◌++◌, Option, none, some,
  Text, codes, same, contains, or_else, if◌then◌else◌, ◌==◌, ltb,
}
use model_proxy_v.Values.{is_filled, is_nonblank}
use model_proxy_v.Converters.Events.{
  text_kind, thinking_kind, tool_kind, StreamEvent, message_start, block_start, text_delta,
  thinking_delta, signature_delta, json_delta, block_stop, message_delta, message_stop, StreamCall,
  Stream, CallDelta, Delta, StreamLine, chunk, done, Step, then_step,
}
use model_proxy_v.Converters.Response.{synthetic_thinking_signature, match_at, or_kept}

abbrev pub add_before : ℕ → List (Text × Text) × Text → List (Text × Text) × Text
add_before c ([], rest) = ([], c ∷ rest)
add_before c ((before, thought) ∷ found, rest) = ((c ∷ before, thought) ∷ found, rest)

abbrev pub add_match : Text → List (Text × Text) × Text → List (Text × Text) × Text
add_match thought (found, rest) = (([], thought) ∷ found, rest)

-- The loop over `exec`: each match with the text before it, and the text behind the last one.
unfoldable pub matches : ℕ → Text → List (Text × Text) × Text
matches skip [] = ([], [])
matches (suc skip) (c ∷ s) = matches skip s
matches zero (c ∷ s) = elim (match_at (c ∷ s)) [
  | none ↦ add_before c (matches zero s)
  | some (thought, n) ↦ add_match thought (matches (n - 1) s)
]

abbrev pub think_at : Option ℕ → Text → Stream → Step
think_at (some i) t s = (thinking_delta i t ∷ [], s)
think_at none t s = (
  block_start (suc s.block_index) thinking_kind ∷ thinking_delta (suc s.block_index) t ∷ [],
  record s { block_index = suc s.block_index; thinking_index = some (suc s.block_index) },
)

-- A delta of thinking, whose block is started if it is not.
unfoldable pub think : Text → Stream → Step
think t s = think_at s.thinking_index t s

unfoldable pub send_matches : List (Text × Text) → Stream → Step
unfolding think
send_matches [] s = ([], s)
send_matches ((before, thought) ∷ found) s =
    then_step ((if is_nonblank before then text_delta 0 before ∷ [] else []), s)
      (λ s'. then_step (think thought s') (λ t. send_matches found t))

abbrev pub has_opening : Text → Bool
has_opening s = contains (codes "<thinking>") s || contains (codes "<think>") s

abbrev pub send_rest : Text → Stream → Step
send_rest rest s =
    if is_filled rest && not (has_opening rest)
    then (text_delta 0 rest ∷ [], record s { accumulated = [] })
    else ([], record s { accumulated = rest })

abbrev pub send_found : List (Text × Text) × Text → Stream → Step
send_found (found, rest) s = then_step (send_matches found s) (λ t. send_rest rest t)

unfoldable pub process_thinking_extraction : Text → Stream → Step
unfolding matches send_matches
process_thinking_extraction content s = send_found (matches 0 (s.accumulated ++ content)) s

abbrev pub has_mark : Text → Bool
has_mark s = has_opening s || contains (codes "</thinking>") s || contains (codes "</think>") s

unfoldable pub on_content : Text → Stream → Step
unfolding process_thinking_extraction
on_content content s =
    if is_filled content
    then (if has_mark content || is_filled s.accumulated
        then process_thinking_extraction content s
        else (text_delta 0 content ∷ [], s))
    else ([], s)

unfoldable pub on_reasoning : Text → Stream → Step
unfolding think
on_reasoning reasoning s =
    if is_filled reasoning
    then think reasoning (record s { accumulated = s.accumulated ++ reasoning })
    else ([], s)

-- The signature of the delta is added; one of the chunk is taken where there is none yet.
abbrev pub on_signature : Text → Option Text → Option Text → Stream → Stream
on_signature signature reasoning_item_id response_signature s =
    let own = s.signature ++ signature in
    record s {
      signature =
          if is_filled own
          then own
          else or_else (or_kept reasoning_item_id (or_kept response_signature none)) [];
    }

abbrev pub no_call : StreamCall
no_call = record { id = []; name = []; args = []; claude_index = 0; started = false }

-- `toolCalls[index]`, whose keys are kept in order.
unfoldable pub call_at : ℕ → List (ℕ × StreamCall) → StreamCall
call_at k [] = no_call
call_at k ((j, c) ∷ cs) =
    let later = call_at k cs in if j == k then c else if ltb k j then no_call else later

unfoldable pub put_call : ℕ → StreamCall → List (ℕ × StreamCall) → List (ℕ × StreamCall)
put_call k c [] = (k, c) ∷ []
put_call k c ((j, d) ∷ cs) =
    let later = put_call k c cs in
    if j == k then (k, c) ∷ cs else if ltb k j then (k, c) ∷ (j, d) ∷ cs else (j, d) ∷ later

-- `if (v) field = v`
abbrev pub replaced_by : Text → Text → Text
replaced_by old [] = old
replaced_by old (c ∷ s) = c ∷ s

abbrev pub fill_call : CallDelta → StreamCall → StreamCall
fill_call d c = record c {
  id = replaced_by c.id d.id;
  name = replaced_by c.name d.name;
  args = c.args ++ d.arguments;
}

abbrev pub json_events : ℕ → Text → List StreamEvent
json_events i [] = []
json_events i (c ∷ s) = json_delta i (c ∷ s) ∷ []

abbrev pub put_in : ℕ → StreamCall → Stream → Stream
put_in k c s = record s { calls = put_call k c s.calls }

-- The block of a call is started as soon as the id and the name are known.
unfoldable pub on_filled_call : CallDelta → StreamCall → Stream → Step
unfolding put_call
on_filled_call d c s =
    if c.started
    then (json_events c.claude_index d.arguments, put_in d.index c s)
    else if is_filled c.id && is_filled c.name
    then (
      block_start (suc s.block_index) (tool_kind c.id c.name)
          ∷ json_events (suc s.block_index) d.arguments,
      put_in d.index (record c { claude_index = suc s.block_index; started = true })
          (record s { block_index = suc s.block_index }),
    )
    else ([], put_in d.index c s)

abbrev pub on_call : CallDelta → Stream → Step
on_call d s = on_filled_call d (fill_call d (call_at d.index s.calls)) s

unfoldable pub on_calls : List CallDelta → Stream → Step
unfolding call_at on_filled_call
on_calls [] s = ([], s)
on_calls (d ∷ ds) s = then_step (on_call d s) (λ t. on_calls ds t)

abbrev pub on_tool_calls : Option (List CallDelta) → Stream → Step
on_tool_calls none s = ([], s)
on_tool_calls (some ds) s = on_calls ds (record s { has_tool_calls = true })

unfoldable pub on_delta : Delta → Option Text → Option Text → Stream → Step
unfolding on_content on_reasoning on_calls
on_delta d reasoning_item_id response_signature s = then_step (on_content d.content s) (λ t.
    then_step (on_reasoning d.reasoning t) (λ u.
      on_tool_calls d.tool_calls (on_signature d.signature reasoning_item_id response_signature u)))

abbrev pub thinking_stops : Option ℕ → Text → List StreamEvent
thinking_stops none signature = []
thinking_stops (some i) signature =
    signature_delta i (if is_filled signature then signature else synthetic_thinking_signature)
    ∷ block_stop i
    ∷ []

abbrev pub call_stops : List (ℕ × StreamCall) → List StreamEvent
call_stops [] = []
call_stops ((j, c) ∷ cs) =
    if c.started then block_stop c.claude_index ∷ call_stops cs else call_stops cs

-- The events with which a message ends, whether or not the stream marks its end.
abbrev pub closing : Text → Stream → List StreamEvent
closing stop_reason s =
    block_stop 0
    ∷ (thinking_stops s.thinking_index s.signature
        ++ (call_stops s.calls ++ message_delta stop_reason ∷ message_stop ∷ []))

abbrev pub reason_by_calls : Bool → Text
reason_by_calls has_tool_calls = if has_tool_calls then codes "tool_use" else codes "end_turn"

abbrev pub final_reason : Option Text → Bool → Text
final_reason none has_tool_calls = reason_by_calls has_tool_calls
final_reason (some r) has_tool_calls =
    if same r (codes "tool_calls") || same r (codes "tool_use")
    then codes "tool_use"
    else if same r (codes "length")
    then codes "max_tokens"
    else if same r (codes "content_filter")
    then codes "content_filter"
    else if not (is_filled r) || same r (codes "stop")
    then reason_by_calls has_tool_calls
    else codes "end_turn"

abbrev pub final_stop_reason : Option (Option Text) → Bool → Text
final_stop_reason none has_tool_calls = reason_by_calls has_tool_calls
final_stop_reason (some r) has_tool_calls = final_reason r has_tool_calls

abbrev pub on_chunk : Option Delta → Option Text → Option Text → Stream → Step
on_chunk none reasoning_item_id response_signature s = ([], s)
on_chunk (some d) reasoning_item_id response_signature s =
    on_delta d reasoning_item_id response_signature s

-- The lines of a stream and what comes after them; `flush` at its end.
unfoldable pub transform_lines : List StreamLine → Stream → List StreamEvent
unfolding on_delta
transform_lines [] s = closing (reason_by_calls s.has_tool_calls) s
transform_lines (done last ∷ lines) s = closing (final_stop_reason last s.has_tool_calls) s
transform_lines (chunk d reasoning_item_id response_signature ∷ lines) s =
    let (es, t) = on_chunk d reasoning_item_id response_signature s in es ++ transform_lines lines t

abbrev pub started_stream : Stream
started_stream = record {
  block_index = 0;
  thinking_index = none;
  accumulated = [];
  signature = [];
  calls = [];
  has_tool_calls = false;
}

unfoldable pub transform_stream : List StreamLine → List StreamEvent
unfolding transform_lines
transform_stream lines =
    message_start ∷ block_start 0 text_kind ∷ transform_lines lines started_stream
