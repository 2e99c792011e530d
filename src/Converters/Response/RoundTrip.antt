-- ===== src/Converters/Response/RoundTrip.antt =====
-- An answer of the assistant comes back to the upstream as it was given: from OpenAI to Claude, and in
-- the next request back to OpenAI.
use model_proxy_v.Base.{
  ℕ, zero, Bool, true, false, ◌||◌, List, [], ◌∷◌, ◌++◌, append-nil, append_assoc, Option, none,
  some, Text, codes, join_with, contains, starts_with, All, ◌≡◌, refl, sym, ap, ◌∙◌, arith,
}
use model_proxy_v.Values.{Json, is_filled}
use model_proxy_v.Converters.{Block, text, tool_use, blocks, ToolCall, Assistant, is_truthy}
use model_proxy_v.Converters.Messages.{
  Filled, assistant_of, call_of, add_block, add_blocks, convert_assistant,
}
use model_proxy_v.Converters.Response.{
  OpenAiResponse, ReceivedMessage, text_content, match_at, add_outside, extract_thinking,
  content_blocks, reasoning_blocks, use_blocks, behind, convert_blocks,
}

-- A text without a mark that opens a thought.
abbrev pub HasNoMark : Text → Type 0
HasNoMark s = (contains (codes "<thinking>") s ≡ false) × (contains (codes "<think>") s ≡ false)

or_parts : (a b : Bool) → (a || b) ≡ false → (a ≡ false) × (b ≡ false)
or_parts true b h = absurd (ground arith)
or_parts false b h = (refl, h)

match_at_unmarked :
    (s : Text)
    → starts_with (codes "<thinking>") s ≡ false
    → starts_with (codes "<think>") s ≡ false
    → match_at s ≡ none
unfolding match_at
match_at_unmarked s h k = rw (h, k) refl

extract_thinking-unmarked : (s : Text) → HasNoMark s → extract_thinking zero s ≡ ([], s)
unfolding extract_thinking contains
extract_thinking-unmarked [] h = refl
extract_thinking-unmarked (c ∷ s) (h, k) =
    let (h0, h1) =
      or_parts (starts_with (codes "<thinking>") (c ∷ s)) (contains (codes "<thinking>") s) h in
    let (k0, k1) =
      or_parts (starts_with (codes "<think>") (c ∷ s)) (contains (codes "<think>") s) k in
    rw (extract_thinking, match_at_unmarked (c ∷ s) h0 k0)
      (ap (add_outside c) (extract_thinking-unmarked s (h1, k1)))

content_blocks-unmarked :
    (r : OpenAiResponse) (c : ℕ) (s : Text)
    → HasNoMark (c ∷ s)
    → content_blocks r (text_content (c ∷ s)) ≡ text (c ∷ s) ∷ []
unfolding content_blocks
content_blocks-unmarked r c s h = rw (extract_thinking-unmarked (c ∷ s) h) refl

module _ (stringify : Json → Text) (parse : Text → Option Json) where
  add_blocks-append :
      (xs ys : List Block) (f : Filled)
      → add_blocks stringify (xs ++ ys) f ≡ add_blocks stringify ys (add_blocks stringify xs f)
  unfolding add_blocks
  add_blocks-append [] ys f = refl
  add_blocks-append (x ∷ xs) ys f = add_blocks-append xs ys (add_block stringify x f)

  -- Arguments as `stringify` writes a value that counts as true: an object, say.
  pub record IsWritten (call : ToolCall) : Type 0 where
    pub input : Json
    pub parsed : parse call.arguments ≡ some input
    pub filled : is_truthy input ≡ true
    pub written : stringify input ≡ call.arguments

  call_of_written :
      (call : ToolCall) (w : IsWritten call)
      → call_of stringify call.id call.name (some w.input) ≡ call
  call_of_written call w =
      rw w.filled (ap (λ a. record { id = call.id; name = call.name; arguments = a }) w.written)

  -- The blocks of the calls, and what they add behind other blocks.
  use_blocks-written :
      (calls : List ToolCall)
      → All IsWritten calls
      → (bs : List Block) × (use_blocks parse calls ≡ some bs)
        × ((f : Filled) → add_blocks stringify bs f ≡ record f { calls = f.calls ++ calls })
  unfolding use_blocks add_blocks
  use_blocks-written [] h =
      ([], refl, λ f. ap (λ cs. record f { calls = cs }) (sym (append-nil f.calls)))
  use_blocks-written (call ∷ calls) (w, h) =
      let (bs, e, added) = use_blocks-written calls h in
      (
        tool_use call.id call.name (some w.input) ∷ bs,
        rw (w.parsed, e) refl,
        λ f.
            added (record f {
              calls = f.calls ++ call_of stringify call.id call.name (some w.input) ∷ [];
            })
            ∙ ap (λ cs. record f { calls = cs })
                (append_assoc f.calls (call_of stringify call.id call.name (some w.input) ∷ [])
                    calls
                  ∙ ap (λ d. f.calls ++ d ∷ calls) (call_of_written call w)),
      )

  -- A filled reasoning, or none.
  abbrev pub HasReasoning : Option Text → Type 0
  HasReasoning none = Unit
  HasReasoning (some s) = is_filled s ≡ true

  abbrev start : Filled
  start = record { text_parts = []; calls = []; thinking_parts = [] }

  added_content :
      (r : OpenAiResponse) (content : Text) (reasoning : Option Text)
      → HasNoMark content
      → HasReasoning reasoning
      → assistant_of (
          add_blocks stringify
            (reasoning_blocks reasoning ++ content_blocks r (text_content content))
            start)
        ≡ record { content = content; tool_calls = []; reasoning = reasoning }
  unfolding add_blocks content_blocks join_with
  added_content r [] none h k = refl
  added_content r [] (some []) h k = absurd (ground arith)
  added_content r [] (some (d ∷ t)) h k = refl
  added_content r (c ∷ s) none h k = rw (content_blocks-unmarked r c s h) refl
  added_content r (c ∷ s) (some []) h k = absurd (ground arith)
  added_content r (c ∷ s) (some (d ∷ t)) h k = rw (content_blocks-unmarked r c s h) refl

  -- An assistant's message: a text without opening marks, a reasoning that is filled or missing, and
  -- calls whose arguments are as `stringify` writes them.
  abbrev pub IsPlain : Assistant → Type 0
  IsPlain a = HasNoMark a.content × HasReasoning a.reasoning × All IsWritten a.tool_calls

  abbrev pub received : Assistant → ReceivedMessage
  received a = record {
    content = text_content a.content;
    reasoning = a.reasoning;
    tool_calls = some a.tool_calls;
  }

  -- A message of this kind from an OpenAI upstream is converted to blocks of Claude, and an assistant
  -- of the next request with these blocks is converted to the very same message: text, reasoning and
  -- calls.
  pub convert_assistant-convert_blocks :
      (r : OpenAiResponse) (a : Assistant)
      → IsPlain a
      → (bs : List Block) × (convert_blocks parse r (received a) ≡ some bs)
        × (convert_assistant stringify (blocks bs) ≡ a)
  unfolding convert_blocks convert_assistant
  convert_assistant-convert_blocks r a (unmarked, reasoning, written) =
      let (bs, e, added) = use_blocks-written a.tool_calls written in
      let front : List Block =
        reasoning_blocks a.reasoning ++ content_blocks r (text_content a.content) in
      let f : Filled = add_blocks stringify front start in
      let same_front : assistant_of f
          ≡ record { content = a.content; tool_calls = []; reasoning = a.reasoning } =
        added_content r a.content a.reasoning unmarked reasoning in
      (
        front ++ bs,
        ap (behind parse front) e,
        ap assistant_of (add_blocks-append front bs start ∙ added f)
            ∙ ap (λ (b : Assistant). record b { tool_calls = b.tool_calls ++ a.tool_calls })
                same_front,
      )
