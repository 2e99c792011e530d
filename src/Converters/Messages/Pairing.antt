-- ===== src/Converters/Messages/Pairing.antt =====
-- Tool calls and their results stay side by side in the converted messages.
use mathlib.Core.List.{Perm}
use mathlib.Core.List.Perm
use model_proxy_v.Base.{
  List, [], ◌∷◌, ◌++◌, append-nil, append_assoc, Text, ◌≡◌, refl, sym, ap, ◌∙◌, subst,
}
use model_proxy_v.Values.{Json}
use model_proxy_v.Converters.{
  Block, text, image, tool_use, tool_result, thinking, other, Content, plain, blocks, Message, user,
  assistant, unknown_role, ToolCall, Part, OpenAiMessage, tool_message, assistant_message,
}
use model_proxy_v.Converters.Messages.{
  parts_of, non_tool_content, other_message, Filled, System, no_system, system_text, system_blocks,
  system_messages, tool_results, call_of, add_block, add_blocks, blocks_of, convert_assistant,
  convert_each, convert_messages,
}

-- The ids of the tools that blocks call, and of those whose results they hold.
abbrev pub use_ids : List Block → List Text
use_ids [] = []
use_ids (tool_use id name input ∷ bs) = id ∷ use_ids bs
use_ids (_ ∷ bs) = use_ids bs

abbrev pub result_ids : List Block → List Text
result_ids [] = []
result_ids (tool_result id content ∷ bs) = id ∷ result_ids bs
result_ids (_ ∷ bs) = result_ids bs

-- What the Claude API asks for: the message behind one with tool calls holds exactly their results, in
-- any order; `open` are the ids of the calls of the last message.
abbrev pub IsAnswered : List Text → List Message → Type 0
IsAnswered open_ids [] = open_ids ≡ []
IsAnswered open_ids (user content ∷ ms) =
    Perm (result_ids (blocks_of content)) open_ids × IsAnswered [] ms
IsAnswered open_ids (assistant content ∷ ms) =
    (open_ids ≡ []) × IsAnswered (use_ids (blocks_of content)) ms
IsAnswered open_ids (unknown_role ∷ ms) = (open_ids ≡ []) × IsAnswered [] ms

abbrev pub ids_of : List ToolCall → List Text
ids_of [] = []
ids_of (c ∷ cs) = c.id ∷ ids_of cs

-- What the OpenAI API asks for: behind a message with tool calls stand messages of the tool, one for
-- each call, before any other message.
abbrev pub IsFollowed : List Text → List OpenAiMessage → Type 0
IsFollowed open_ids [] = open_ids ≡ []
IsFollowed open_ids (tool_message id content ∷ ms) =
    (others : List Text) × Perm open_ids (id ∷ others) × IsFollowed others ms
IsFollowed open_ids (assistant_message a ∷ ms) =
    (open_ids ≡ []) × IsFollowed (ids_of a.tool_calls) ms
IsFollowed open_ids (_ ∷ ms) = (open_ids ≡ []) × IsFollowed [] ms

ids_of-append : (xs ys : List ToolCall) → ids_of (xs ++ ys) ≡ ids_of xs ++ ids_of ys
ids_of-append [] ys = refl
ids_of-append (x ∷ xs) ys = ap (◌∷◌ x.id) (ids_of-append xs ys)

IsFollowed-other_message :
    (ps : List Part) (ms : List OpenAiMessage)
    → IsFollowed [] ms
    → IsFollowed [] (other_message ps ++ ms)
IsFollowed-other_message [] ms h = h
IsFollowed-other_message (p ∷ ps) ms h = (refl, h)

module _ (stringify : Json → Text) where
  ids_of-add_blocks :
      (bs : List Block) (f : Filled)
      → ids_of (add_blocks stringify bs f).calls ≡ ids_of f.calls ++ use_ids bs
  unfolding add_blocks
  ids_of-add_blocks [] f = sym (append-nil (ids_of f.calls))
  ids_of-add_blocks (tool_use id name input ∷ bs) f =
      ids_of-add_blocks bs (add_block stringify (tool_use id name input) f)
      ∙ rw (ids_of-append f.calls (call_of stringify id name input ∷ []))
          (append_assoc (ids_of f.calls) (id ∷ []) (use_ids bs))
  ids_of-add_blocks (text s ∷ bs) f = ids_of-add_blocks bs (add_block stringify (text s) f)
  ids_of-add_blocks (thinking t s ∷ bs) f =
      ids_of-add_blocks bs (add_block stringify (thinking t s) f)
  ids_of-add_blocks (image m d ∷ bs) f = ids_of-add_blocks bs f
  ids_of-add_blocks (tool_result i c ∷ bs) f = ids_of-add_blocks bs f
  ids_of-add_blocks (other ∷ bs) f = ids_of-add_blocks bs f

  -- The tools that a converted assistant calls are those of its blocks, in order.
  ids_of-convert_assistant :
      (content : Content)
      → ids_of (convert_assistant stringify content).tool_calls ≡ use_ids (blocks_of content)
  unfolding convert_assistant
  ids_of-convert_assistant content =
      ids_of-add_blocks (blocks_of content)
        (record { text_parts = []; calls = []; thinking_parts = [] })

  IsFollowed-tool_results :
      (bs : List Block) (open_ids : List Text) (ms : List OpenAiMessage)
      → Perm (result_ids bs) open_ids
      → IsFollowed [] ms
      → IsFollowed open_ids (tool_results stringify bs ++ ms)
  unfolding tool_results
  IsFollowed-tool_results [] open_ids ms p h = subst (λ ids. IsFollowed ids ms) (Perm.nil-eq p) h
  IsFollowed-tool_results (tool_result id content ∷ bs) open_ids ms p h =
      (result_ids bs, Perm.symm p, IsFollowed-tool_results bs (result_ids bs) ms Perm.rfl h)
  IsFollowed-tool_results (text s ∷ bs) open_ids ms p h = IsFollowed-tool_results bs open_ids ms p h
  IsFollowed-tool_results (image m d ∷ bs) open_ids ms p h =
      IsFollowed-tool_results bs open_ids ms p h
  IsFollowed-tool_results (tool_use i n v ∷ bs) open_ids ms p h =
      IsFollowed-tool_results bs open_ids ms p h
  IsFollowed-tool_results (thinking t s ∷ bs) open_ids ms p h =
      IsFollowed-tool_results bs open_ids ms p h
  IsFollowed-tool_results (other ∷ bs) open_ids ms p h = IsFollowed-tool_results bs open_ids ms p h

  convert_each-IsFollowed :
      (ms : List Message) (open_ids : List Text)
      → IsAnswered open_ids ms
      → IsFollowed open_ids (convert_each stringify ms)
  unfolding convert_each
  convert_each-IsFollowed [] open_ids h = h
  convert_each-IsFollowed (user (plain s) ∷ ms) open_ids (p, h) =
      (sym (Perm.nil-eq p), convert_each-IsFollowed ms [] h)
  convert_each-IsFollowed (user (blocks bs) ∷ ms) open_ids (p, h) =
      rw
        (append_assoc (tool_results stringify bs) (other_message (parts_of (non_tool_content bs)))
          (convert_each stringify ms))
        (IsFollowed-tool_results bs open_ids
          (other_message (parts_of (non_tool_content bs)) ++ convert_each stringify ms) p
          (IsFollowed-other_message (parts_of (non_tool_content bs)) (convert_each stringify ms)
            (convert_each-IsFollowed ms [] h)))
  convert_each-IsFollowed (assistant content ∷ ms) open_ids (e, h) = (
    e,
    subst (λ ids. IsFollowed ids (convert_each stringify ms))
        (sym (ids_of-convert_assistant content))
        (convert_each-IsFollowed ms (use_ids (blocks_of content)) h),
  )
  convert_each-IsFollowed (unknown_role ∷ ms) open_ids (e, h) =
      subst (λ ids. IsFollowed ids (convert_each stringify ms)) (sym e)
        (convert_each-IsFollowed ms [] h)

  IsFollowed-system_messages :
      (system : System) (ms : List OpenAiMessage)
      → IsFollowed [] ms
      → IsFollowed [] (system_messages system ++ ms)
  IsFollowed-system_messages no_system ms h = h
  IsFollowed-system_messages (system_text []) ms h = h
  IsFollowed-system_messages (system_text (c ∷ s)) ms h = (refl, h)
  IsFollowed-system_messages (system_blocks ss) ms h = (refl, h)

  -- If in a conversation of Claude the message behind each one with tool calls holds exactly their
  -- results, in any order, then in the converted messages the tool messages of each message with tool
  -- calls stand right behind it, one for each call, before any other message.
  pub convert_messages-IsFollowed :
      (system : System) (ms : List Message)
      → IsAnswered [] ms
      → IsFollowed [] (convert_messages stringify system ms)
  unfolding convert_messages
  convert_messages-IsFollowed system ms h =
      IsFollowed-system_messages system (convert_each stringify ms)
        (convert_each-IsFollowed ms [] h)
