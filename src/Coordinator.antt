-- ===== src/Coordinator.antt =====
-- src/utils/coordinator.ts: whether a conversation is still in its planning stage. `trigger_tools` is
-- `none` for `null`, where every tool call ends the stage.
pub mod Laws
pub mod Tests
use model_proxy_v.Base.{
  ℕ, zero, suc, Bool, true, false, ◌&&◌, List, [], ◌∷◌, Option, none, some, String, Text, codes,
  same, includes, any, reverse, if◌then◌else◌,
}
use model_proxy_v.Values.{Json, str, arr, items, member}

pub data Stage : Type 0 where
  planning : Stage
  executing : Stage

-- `o === text`
abbrev pub is_value : Option Json → String → Bool
is_value (some (str s)) t = same s (codes t)
is_value _ t = false

unfoldable pub is_assistant : Json → Bool
is_assistant msg = is_value (member (codes "role") msg) "assistant"

abbrev pub is_trigger : Option (List Text) → Option Json → Bool
is_trigger none name = true
is_trigger (some tools) (some (str name)) = includes name tools
is_trigger (some tools) _ = false

unfoldable pub block_fires : Option (List Text) → Json → Bool
block_fires trigger_tools block =
    is_value (member (codes "type") block) "tool_use"
    && is_trigger trigger_tools (member (codes "name") block)

unfoldable pub content_fires : Option (List Text) → Option Json → Bool
content_fires trigger_tools (some (arr content)) = any (block_fires trigger_tools) (items content)
content_fires trigger_tools _ = false

-- The loop from the last message on; `left` more assistant messages are looked at.
unfoldable pub scan_messages : Option (List Text) → ℕ → List Json → Stage
scan_messages trigger_tools left [] = planning
scan_messages trigger_tools zero (msg ∷ earlier) =
    let rest = scan_messages trigger_tools zero earlier in
    if is_assistant msg then planning else rest
scan_messages trigger_tools (suc left) (msg ∷ earlier) =
    let fewer = scan_messages trigger_tools left earlier in
    let same_left = scan_messages trigger_tools (suc left) earlier in
    if is_assistant msg
    then (if content_fires trigger_tools (member (codes "content") msg) then executing else fewer)
    else same_left

unfoldable pub detect_coordinator_stage : List Json → Option (List Text) → ℕ → Stage
unfolding scan_messages
detect_coordinator_stage messages trigger_tools tail_limit =
    scan_messages trigger_tools tail_limit (reverse messages)
