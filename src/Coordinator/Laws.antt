-- ===== src/Coordinator/Laws.antt =====
-- src/utils/coordinator.ts, detectCoordinatorStage: the stage of a conversation.
use model_proxy_v.Base.{
  ℕ, zero, suc, ◌≡◌, refl, Bool, List, [], ◌∷◌, Option, Text, codes, any, keep, take, reverse,
  if◌then◌else◌, arith,
}
use model_proxy_v.Values.{Json, member}
use model_proxy_v.Coordinator.{
  planning, executing, is_assistant, content_fires, scan_messages, detect_coordinator_stage,
}

-- A message with a tool call that ends the planning.
abbrev pub fires : Option (List Text) → Json → Bool
fires trigger_tools msg = content_fires trigger_tools (member (codes "content") msg)

scan_messages_lem :
    (trigger_tools : Option (List Text)) (left : ℕ) (messages : List Json)
    → scan_messages trigger_tools left messages ≡ (
        if any (fires trigger_tools) (take left (keep is_assistant messages))
        then executing
        else planning)
unfolding scan_messages
scan_messages_lem trigger_tools zero [] = refl
scan_messages_lem trigger_tools (suc left) [] = refl
scan_messages_lem trigger_tools zero (msg ∷ earlier) =
    ground (arith, scan_messages_lem trigger_tools zero earlier)
scan_messages_lem trigger_tools (suc left) (msg ∷ earlier) = ground (
  arith,
  scan_messages_lem trigger_tools left earlier,
  scan_messages_lem trigger_tools (suc left) earlier,
)

-- A conversation is executing exactly when one of its last `tail_limit` assistant messages, counted
-- without the messages of other roles, has a tool call that is a trigger; it is planning otherwise.
pub detect_coordinator_stage_lem :
    (messages : List Json) (trigger_tools : Option (List Text)) (tail_limit : ℕ)
    → detect_coordinator_stage messages trigger_tools tail_limit ≡ (
        if any (fires trigger_tools) (take tail_limit (keep is_assistant (reverse messages)))
        then executing
        else planning)
unfolding detect_coordinator_stage
detect_coordinator_stage_lem messages trigger_tools tail_limit =
    scan_messages_lem trigger_tools tail_limit (reverse messages)
