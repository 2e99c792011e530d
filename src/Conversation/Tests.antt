-- ===== src/Conversation/Tests.antt =====
-- The conversation store on concrete inputs.
use model_proxy_v.Base.{
  ℕ, ◌+◌, ◌≡◌, refl, List, [], ◌∷◌, none, some, codes, same, or_else, ◌++◌, arith, if◌then◌else◌,
}
use model_proxy_v.Base.Table.{get, delete}
use model_proxy_v.Conversation.{
  at_most, State, Entry, ttl, save_conversation, append_thread_items, get_conversation,
  get_thread_items,
}
use model_proxy_v.Conversation.Invariant.{
  Writes, save_conversation-Writes, Call, reads, saves, appends, run, Bounds, run-Bounds,
}
use model_proxy_v.Conversation.Retrieval.{get-save_conversation, get-append_thread_items}

abbrev Store : Type 0
Store = State ℕ ℕ

abbrev empty : Store
empty = record { store = []; threads = [] }

abbrev held : Entry ℕ ℕ
held = record { input_items = 1 ∷ []; output_items = 2 ∷ []; response = none; expires_at = 9000 }

abbrev one : Store
one = record { store = (codes "resp_1", held) ∷ []; threads = [] }

abbrev talk : Store
talk = record {
  store = (codes "resp_1", held) ∷ [];
  threads = (codes "conv", record { items = 7 ∷ []; expires_at = 50 }) ∷ [];
}

abbrev calls : List (Call ℕ ℕ)
calls =
    saves (codes "a") (1 ∷ []) [] none 0 0
    ∷ saves (codes "b") [] (2 ∷ []) none 1 1
    ∷ appends (codes "c") (3 ∷ []) 2 2 2
    ∷ reads (codes "a") 4
    ∷ []

read_back : (get_conversation (codes "resp_1") 8999 one).0 ≡ some held
unfolding get_conversation get same
read_back = refl

read_late : get_conversation (codes "resp_1") 9000 one ≡ (none, empty)
unfolding get_conversation get same delete
read_late = refl

save_conversation-Writes_example :
    Writes 5 20 (save_conversation (at_most 5) (codes "resp_2") [] [] none 10 20 talk)
save_conversation-Writes_example =
    save_conversation-Writes 5 (codes "resp_2") [] [] none 10 20 talk
      (record { store = (tt, tt); threads = (tt, tt) })

run-Bounds_example : Bounds 2 (run (at_most 2) calls empty)
run-Bounds_example =
    run-Bounds 2 calls empty
      (record { table = record { store = tt; threads = tt }; bounded = omega arith })

get-save_conversation_example :
    (u : Store) × (save_conversation (at_most 5) (codes "resp_2") (4 ∷ []) [] none 10 20 talk
      ≡ some u)
    × ((get_conversation (codes "resp_1") 30 u).0 ≡ (
        if same (codes "resp_2") (codes "resp_1")
        then some (record {
          input_items = 4 ∷ [];
          output_items = [];
          response = none;
          expires_at = 10 + ttl;
        })
        else (get_conversation (codes "resp_1") 30 talk).0))
get-save_conversation_example =
    get-save_conversation 5 (codes "resp_2") (codes "resp_1") (4 ∷ []) [] none 10 20 30 talk
      (record { store = (tt, tt); threads = (tt, tt) }) (omega arith) (omega arith) (omega arith)

get-append_thread_items_example :
    (u : Store) × (append_thread_items (at_most 5) (codes "conv") (8 ∷ []) 10 20 20 talk ≡ some u)
    × ((get_thread_items (codes "conv") 30 u).0 ≡ (
        if same (codes "conv") (codes "conv")
        then some (or_else (get_thread_items (codes "conv") 10 talk).0 [] ++ 8 ∷ [])
        else (get_thread_items (codes "conv") 30 talk).0))
get-append_thread_items_example =
    get-append_thread_items 5 (codes "conv") (codes "conv") 8 [] 10 20 20 30 talk
      (record { store = (tt, tt); threads = (tt, tt) }) (omega arith) (omega arith) (omega arith)
