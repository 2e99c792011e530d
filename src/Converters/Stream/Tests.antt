-- ===== src/Converters/Stream/Tests.antt =====
-- Two short streams.
use model_proxy_v.Base.{List, [], ◌∷◌, Option, none, some, Text, codes, ◌≡◌, refl}
use model_proxy_v.Converters.Events.{
  text_kind, thinking_kind, tool_kind, message_start, block_start, text_delta, thinking_delta,
  signature_delta, json_delta, block_stop, message_delta, message_stop, CallDelta, StreamLine,
  chunk, done,
}
use model_proxy_v.Converters.Stream.{transform_stream}
use model_proxy_v.Converters.Stream.Proper.{IsMessage}
use model_proxy_v.Converters.Stream.Message.{transform_stream-IsMessage}

abbrev says : Text → StreamLine
says t =
    chunk (some (record { content = t; reasoning = []; signature = []; tool_calls = none })) none
      none

abbrev thinks : Text → StreamLine
thinks t =
    chunk (some (record { content = []; reasoning = t; signature = []; tool_calls = none })) none
      none

abbrev calls_tool : CallDelta → StreamLine
calls_tool d =
    chunk
      (some (record { content = []; reasoning = []; signature = []; tool_calls = some (d ∷ []) }))
      none none

abbrev tool_lines : List StreamLine
tool_lines =
    says (codes "ok")
    ∷ calls_tool (record { index = 0; id = codes "c1"; name = codes "ls"; arguments = [] })
    ∷ calls_tool (record { index = 0; id = []; name = []; arguments = codes "{}" })
    ∷ done (some (some (codes "stop")))
    ∷ []

tool_stream :
    transform_stream tool_lines
    ≡ message_start
      ∷ block_start 0 text_kind
      ∷ text_delta 0 (codes "ok")
      ∷ block_start 1 (tool_kind (codes "c1") (codes "ls"))
      ∷ json_delta 1 (codes "{}")
      ∷ block_stop 0
      ∷ block_stop 1
      ∷ message_delta (codes "tool_use")
      ∷ message_stop
      ∷ []
unfolding transform_stream model_proxy_v.Base.contains
tool_stream = refl

transform_stream-IsMessage_example : IsMessage (transform_stream tool_lines)
transform_stream-IsMessage_example = transform_stream-IsMessage tool_lines

-- Reasoning that arrives in its own field comes once more in front of the text that follows.
reasoning_leaks :
    transform_stream (thinks (codes "hm") ∷ says (codes "ok") ∷ [])
    ≡ message_start
      ∷ block_start 0 text_kind
      ∷ block_start 1 thinking_kind
      ∷ thinking_delta 1 (codes "hm")
      ∷ text_delta 0 (codes "hmok")
      ∷ block_stop 0
      ∷ signature_delta 1 (codes "synthetic")
      ∷ block_stop 1
      ∷ message_delta (codes "end_turn")
      ∷ message_stop
      ∷ []
unfolding transform_stream model_proxy_v.Base.contains model_proxy_v.Converters.Response.match_at
reasoning_leaks = refl
