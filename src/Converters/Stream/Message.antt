-- ===== src/Converters/Stream/Message.antt =====
-- From the handlers of a stream to the whole message.
use mathlib.Core.List.{Perm}
use mathlib.Core.List.Perm
use model_proxy_v.Base.{
  ℕ, suc, true, false, ◌&&◌, List, [], ◌∷◌, ◌++◌, Option, none, some, Text, Bool-cases,
  if◌then◌else◌, ◌≡◌, refl, sym, subst, inl, inr, arith,
}
use model_proxy_v.Values.{is_filled}
use model_proxy_v.Converters.Events.{
  tool_kind, StreamEvent, block_start, message_delta, message_stop, StreamCall, Stream, CallDelta,
  Delta, StreamLine, chunk, done, then_step,
}
use model_proxy_v.Converters.Stream.{
  on_content, on_reasoning, on_signature, call_at, put_call, fill_call, json_events, put_in,
  on_filled_call, on_call, on_calls, on_tool_calls, on_delta, thinking_stops, call_stops, closing,
  reason_by_calls, final_stop_reason, transform_lines, started_stream, transform_stream,
}
use model_proxy_v.Converters.Stream.Calls.{
  started_of, add_started, started_of-put_fresh, started_of-put_started, started_of-call_at,
}
use model_proxy_v.Converters.Stream.Proper.{
  IsOpen, IsProper, IsMessage, with_thinking, Inv, IsSound, IsSound-then_step, IsSound-if, silent,
  All-below, IsSound-on_content, IsSound-on_reasoning,
}

IsProper-json_events :
    (n : ℕ) (t : Text) (open_blocks : List ℕ) (rest : List StreamEvent)
    → IsOpen n open_blocks
    → IsProper open_blocks rest
    → IsProper open_blocks (json_events n t ++ rest)
IsProper-json_events n [] open_blocks rest o h = h
IsProper-json_events n (c ∷ t) open_blocks rest o h = (o, h)

-- A started block behind the thinking is one of all that are open.
opened_among :
    (o : Option ℕ) (n : ℕ) (is others : List ℕ)
    → Perm is (n ∷ others)
    → IsOpen n (0 ∷ with_thinking o is)
opened_among none n is others p = (0 ∷ others, Perm.trans (Perm.cons 0 p) (Perm.swap n 0 others))
opened_among (some t) n is others p = (
  0 ∷ t ∷ others,
  Perm.trans (Perm.cons 0 (Perm.trans (Perm.cons t p) (Perm.swap n t others)))
      (Perm.swap n 0 (t ∷ others)),
)

started_last :
    (o : Option ℕ) (n : ℕ) (is new_is open_blocks : List ℕ)
    → Perm open_blocks (0 ∷ with_thinking o is)
    → Perm new_is (n ∷ is)
    → Perm (n ∷ open_blocks) (0 ∷ with_thinking o new_is)
started_last none n is new_is open_blocks p q =
    Perm.trans (Perm.cons n p) (Perm.trans (Perm.swap 0 n is) (Perm.cons 0 (Perm.symm q)))
started_last (some t) n is new_is open_blocks p q = Perm.trans (Perm.cons n p) (
    Perm.trans (Perm.swap 0 n (t ∷ is))
      (Perm.cons 0 (Perm.trans (Perm.swap t n is) (Perm.cons t (Perm.symm q)))))

with_thinking-Perm :
    (o : Option ℕ) (xs ys : List ℕ)
    → Perm xs ys
    → Perm (0 ∷ with_thinking o xs) (0 ∷ with_thinking o ys)
with_thinking-Perm none xs ys p = Perm.cons 0 p
with_thinking-Perm (some t) xs ys p = Perm.cons 0 (Perm.cons t p)

add_started_unstarted : (c : StreamCall) (is : List ℕ) → c.started ≡ false → add_started c is ≡ is
add_started_unstarted c is h = rw h refl

module _ (d : CallDelta) (s : Stream) where
  abbrev call : StreamCall
  call = fill_call d (call_at d.index s.calls)

  abbrev next : ℕ
  next = suc s.block_index

  abbrev new_call : StreamCall
  new_call = record call { claude_index = next; started = true }

  IsSound-started :
      call.started ≡ true
      → IsSound s (json_events call.claude_index d.arguments, put_in d.index call s)
  IsSound-started started = λ open_blocks rest i k.
      let (others, p) = started_of-call_at d.index s.calls started in
      let (more, q) =
        opened_among s.thinking_index call.claude_index (started_of s.calls) others p in
      IsProper-json_events call.claude_index d.arguments open_blocks rest (more, Perm.trans i.0 q)
        (k open_blocks (
          subst (λ is. Perm open_blocks (0 ∷ with_thinking s.thinking_index is))
              (sym (started_of-put_started d.index call s.calls started started refl)) i.0,
          i.1,
        ))

  IsSound-new :
      call.started ≡ false
      → IsSound s (
        block_start next (tool_kind call.id call.name) ∷ json_events next d.arguments,
        put_in d.index new_call (record s { block_index = next }),
      )
  IsSound-new fresh = λ open_blocks rest i k.
      let (below, within) = All-below s.block_index open_blocks i.1 in
      (
        below,
        IsProper-json_events next d.arguments (next ∷ open_blocks) rest (open_blocks, Perm.rfl)
            (k (next ∷ open_blocks) (
              started_last s.thinking_index next (started_of s.calls)
                  (started_of (put_call d.index new_call s.calls)) open_blocks i.0
                  (started_of-put_fresh d.index new_call s.calls fresh),
              (omega arith, within),
            )),
      )

  IsSound-unknown : call.started ≡ false → IsSound s ([], put_in d.index call s)
  IsSound-unknown fresh = λ open_blocks rest i k.
      let p : Perm (started_of (put_call d.index call s.calls)) (started_of s.calls) =
        subst (Perm (started_of (put_call d.index call s.calls)))
          (add_started_unstarted call (started_of s.calls) fresh)
          (started_of-put_fresh d.index call s.calls fresh) in
      k open_blocks (
        Perm.trans i.0 (
            Perm.symm (
              with_thinking-Perm s.thinking_index (started_of (put_call d.index call s.calls))
                (started_of s.calls) p)),
        i.1,
      )

  IsSound-on_call : IsSound s (on_call d s)
  unfolding on_filled_call
  IsSound-on_call =
      IsSound-if s call.started (json_events call.claude_index d.arguments, put_in d.index call s)
        (if is_filled call.id && is_filled call.name
          then (
            block_start next (tool_kind call.id call.name) ∷ json_events next d.arguments,
            put_in d.index new_call (record s { block_index = next }),
          )
          else ([], put_in d.index call s))
        IsSound-started
        (λ fresh.
          IsSound-if s (is_filled call.id && is_filled call.name)
            (
              block_start next (tool_kind call.id call.name) ∷ json_events next d.arguments,
              put_in d.index new_call (record s { block_index = next }),
            )
            ([], put_in d.index call s) (λ known. IsSound-new fresh)
            (λ unknown. IsSound-unknown fresh))

IsSound-on_calls : (ds : List CallDelta) (s : Stream) → IsSound s (on_calls ds s)
unfolding on_calls
IsSound-on_calls [] s = silent s
IsSound-on_calls (d ∷ ds) s =
    IsSound-then_step s (on_call d s) (λ t. on_calls ds t) (IsSound-on_call d s)
      (λ t. IsSound-on_calls ds t)

IsSound-on_tool_calls : (ds : Option (List CallDelta)) (s : Stream) → IsSound s (on_tool_calls ds s)
IsSound-on_tool_calls none s = silent s
IsSound-on_tool_calls (some ds) s = λ open_blocks rest i k.
    IsSound-on_calls ds (record s { has_tool_calls = true }) open_blocks rest i k

IsSound-on_delta :
    (d : Delta) (reasoning_item_id response_signature : Option Text) (s : Stream)
    → IsSound s (on_delta d reasoning_item_id response_signature s)
unfolding on_delta
IsSound-on_delta d reasoning_item_id response_signature s =
    let signed : Stream → Stream =
      λ u. on_signature d.signature reasoning_item_id response_signature u in
    IsSound-then_step s (on_content d.content s)
      (λ t. then_step (on_reasoning d.reasoning t) (λ u. on_tool_calls d.tool_calls (signed u)))
      (IsSound-on_content d.content s)
      (λ t.
        IsSound-then_step t (on_reasoning d.reasoning t)
          (λ u. on_tool_calls d.tool_calls (signed u)) (IsSound-on_reasoning d.reasoning t)
          (λ u open_blocks rest i k.
            IsSound-on_tool_calls d.tool_calls (signed u) open_blocks rest i k))

IsProper-call_stops :
    (stop_reason : Text) (cs : List (ℕ × StreamCall))
    → IsProper (started_of cs) (call_stops cs ++ message_delta stop_reason ∷ message_stop ∷ [])
IsProper-call_stops stop_reason [] = (refl, (refl, refl))
IsProper-call_stops stop_reason ((j, c) ∷ cs) = elim (Bool-cases c.started) [
  | inl e ↦ rw e (started_of cs, Perm.rfl, IsProper-call_stops stop_reason cs)
  | inr e ↦ rw e (IsProper-call_stops stop_reason cs)
]

IsProper-thinking_stops :
    (o : Option ℕ) (signature : Text) (is : List ℕ) (rest : List StreamEvent)
    → IsProper is rest
    → IsProper (with_thinking o is) (thinking_stops o signature ++ rest)
IsProper-thinking_stops none signature is rest h = h
IsProper-thinking_stops (some t) signature is rest h = ((is, Perm.rfl), (is, Perm.rfl, h))

IsProper-closing :
    (stop_reason : Text) (s : Stream) (open_blocks : List ℕ)
    → Inv s open_blocks
    → IsProper open_blocks (closing stop_reason s)
IsProper-closing stop_reason s open_blocks i = (
  with_thinking s.thinking_index (started_of s.calls),
  i.0,
  IsProper-thinking_stops s.thinking_index s.signature (started_of s.calls)
      (call_stops s.calls ++ message_delta stop_reason ∷ message_stop ∷ [])
      (IsProper-call_stops stop_reason s.calls),
)

transform_lines-IsProper :
    (lines : List StreamLine) (s : Stream) (open_blocks : List ℕ)
    → Inv s open_blocks
    → IsProper open_blocks (transform_lines lines s)
unfolding transform_lines
transform_lines-IsProper [] s open_blocks i =
    IsProper-closing (reason_by_calls s.has_tool_calls) s open_blocks i
transform_lines-IsProper (done last ∷ lines) s open_blocks i =
    IsProper-closing (final_stop_reason last s.has_tool_calls) s open_blocks i
transform_lines-IsProper (chunk none r q ∷ lines) s open_blocks i =
    transform_lines-IsProper lines s open_blocks i
transform_lines-IsProper (chunk (some d) r q ∷ lines) s open_blocks i =
    IsSound-on_delta d r q s open_blocks (transform_lines lines (on_delta d r q s).1) i
      (λ later j. transform_lines-IsProper lines (on_delta d r q s).1 later j)

-- Whatever lines come from the upstream, the events that are sent form one message of Claude: a block
-- that starts has a larger index than each that is open, a delta belongs to an open block, a block that
-- stops was open, and the message ends once, with no block open and nothing behind.
pub transform_stream-IsMessage : (lines : List StreamLine) → IsMessage (transform_stream lines)
unfolding transform_stream
transform_stream-IsMessage lines =
    (tt, transform_lines-IsProper lines started_stream (0 ∷ []) (Perm.rfl, (omega arith, tt)))
