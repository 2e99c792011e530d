-- ===== src/Conversation.antt =====
-- src/utils/conversation-store.ts: the two insertion-ordered maps of the stateful Responses API. Each
-- reading of the clock is an argument, in the order in which the code takes them.
pub mod Eviction
pub mod Invariant
pub mod Retrieval
mod Tests
use model_proxy_v.Base.{
  ℕ, zero, suc, ◌+◌, ◌*◌, Bool, true, false, not, List, [], ◌∷◌, ◌++◌, Option, none, some, Text,
  ltb, leb, length, keep, tail_of, if◌then◌else◌,
}
use model_proxy_v.Base.Table
use model_proxy_v.Base.Table.{get, set, delete}

-- CONVERSATION_TTL_MS
abbrev pub ttl : ℕ
ttl = 3600 * 1000

-- MAX_ENTRIES is `parseInt` of an environment variable: a number, -(n + 1), or NaN.
pub data Limit : Type 0 where
  at_most : ℕ → Limit
  below_zero : ℕ → Limit
  not_a_number : Limit

pub record Entry (Item Response : Type 0) : Type 0 where
  pub input_items : List Item
  pub output_items : List Item
  pub response : Option Response
  pub expires_at : ℕ

pub record Thread (Item : Type 0) : Type 0 where
  pub items : List Item
  pub expires_at : ℕ

pub record State (Item Response : Type 0) : Type 0 where
  pub store : List (Text × Entry Item Response)
  pub threads : List (Text × Thread Item)

-- `size > MAX_ENTRIES`, false at NaN
abbrev pub exceeds : Limit → ℕ → Bool
exceeds (at_most n) size = ltb n size
exceeds (below_zero n) size = true
exceeds not_a_number size = false

module _ {Item : Type 0} where
  abbrev pub fresh_thread : ℕ → Text × Thread Item → Bool
  fresh_thread now e = not (leb e.1.expires_at now)

  -- The items that a live thread holds at an append.
  abbrev pub prior_items : Option (Thread Item) → ℕ → List Item
  prior_items none now = []
  prior_items (some t) now = if ltb now t.expires_at then t.items else []

module _ {Item Response : Type 0} where
  abbrev pub size : State Item Response → ℕ
  size s = length s.store + length s.threads

  -- `!(entry.expiresAt <= now)`, for an entry of either map
  abbrev pub fresh_entry : ℕ → Text × Entry Item Response → Bool
  fresh_entry now e = not (leb e.1.expires_at now)

  unfoldable pub evict_expired : ℕ → State Item Response → State Item Response
  evict_expired now s = record {
    store = keep (fresh_entry now) s.store;
    threads = keep (fresh_thread now) s.threads;
  }

  unfoldable pub evict_oldest : State Item Response → State Item Response
  evict_oldest s = record { store = tail_of s.store; threads = tail_of s.threads }

  -- `while (store.size + threads.size > MAX_ENTRIES) evictOldest()`; `none` is out of fuel.
  unfoldable pub shrink : Limit → ℕ → State Item Response → Option (State Item Response)
  unfolding evict_oldest
  shrink max zero s = if exceeds max (size s) then none else some s
  shrink max (suc fuel) s =
      let rest = shrink max fuel (evict_oldest s) in if exceeds max (size s) then rest else some s

  -- The eviction that closes every write, with a round of fuel for each entry.
  unfoldable pub clean : Limit → ℕ → State Item Response → Option (State Item Response)
  unfolding shrink
  clean max now s = let s' = evict_expired now s in shrink max (size s') s'

  -- `getConversation`: the entry, and the state without it if it has run out
  unfoldable pub get_conversation :
      Text → ℕ → State Item Response → Option (Entry Item Response) × State Item Response
  get_conversation id now s = elim (get id s.store) [
    | none ↦ (none, s)
    | some e ↦
        if leb e.expires_at now then (none, record s { store = delete id s.store }) else (some e, s)
  ]

  unfoldable pub save_conversation :
      Limit
      → Text
      → List Item
      → List Item
      → Option Response
      → ℕ
      → ℕ
      → State Item Response
      → Option (State Item Response)
  save_conversation max id input output response now later s = clean max later (record s {
    store =
        set id
          (record {
            input_items = input;
            output_items = output;
            response = response;
            expires_at = now + ttl;
          })
          s.store;
  })

  -- `getConversationThreadItems`
  unfoldable pub get_thread_items :
      Text → ℕ → State Item Response → Option (List Item) × State Item Response
  get_thread_items id now s = elim (get id s.threads) [
    | none ↦ (none, s)
    | some t ↦
        if leb t.expires_at now
        then (none, record s { threads = delete id s.threads })
        else (some t.items, s)
  ]

  -- `appendConversationThreadItems`: an append to a live thread, or a new one; either way the
  -- key keeps its place in the map.
  unfoldable pub append_thread_items :
      Limit → Text → List Item → ℕ → ℕ → ℕ → State Item Response → Option (State Item Response)
  append_thread_items max id [] now later last s = some s
  append_thread_items max id (x ∷ xs) now later last s = clean max last (record s {
    threads =
        set id
          (record {
            items = prior_items (get id s.threads) now ++ x ∷ xs;
            expires_at = later + ttl;
          })
          s.threads;
  })
