-- ===== src/Conversation/Retrieval.antt =====
-- What a read gives after a write, with room in the store and without.
use model_proxy_v.Base.{
  ℕ, zero, suc, ◌+◌, ◌≤◌, ◌<◌, ◌≡◌, refl, ◌∙◌, or_else, Bool, true, List, [], ◌∷◌, ◌++◌, Option,
  some, Text, same, length, length-keep-le, keep, All, arith, if◌then◌else◌,
}
use model_proxy_v.Base.Table.{get, set, set-Distinct, get-set, get-keep, length-set-le}
use model_proxy_v.Conversation.{
  at_most, State, Entry, Thread, size, ttl, evict_expired, evict_oldest, shrink, clean, fresh_entry,
  fresh_thread, prior_items, save_conversation, append_thread_items, get_conversation,
  get_thread_items,
}
use model_proxy_v.Conversation.Eviction.{size-evict_oldest-le}
use model_proxy_v.Conversation.Invariant.{IsTable}

module _ {A : Type 0} where
  keep_of_All : (p : A → Bool) (xs : List A) → All (λ x. p x ≡ true) xs → keep p xs ≡ xs
  keep_of_All p [] h = refl
  keep_of_All p (x ∷ xs) (q, h) = rw (q, keep_of_All p xs h)

module _ {Item Response : Type 0} where
  shrink_fits :
      (n fuel : ℕ) (s : State Item Response) → size s ≤ n → shrink (at_most n) fuel s ≡ some s
  unfolding shrink
  shrink_fits n zero s h = ground arith
  shrink_fits n (suc fuel) s h = ground arith

  size-evict_expired-le : (now : ℕ) (s : State Item Response) → size (evict_expired now s) ≤ size s
  unfolding evict_expired
  size-evict_expired-le now s =
      omega (
        arith,
        length-keep-le (fresh_entry now) s.store,
        length-keep-le (fresh_thread now) s.threads,
      )

  clean_fits :
      (n now : ℕ) (s : State Item Response)
      → size s ≤ n
      → clean (at_most n) now s ≡ some (evict_expired now s)
  unfolding clean
  clean_fits n now s h = shrink_fits n _ _ (omega (arith, size-evict_expired-le now s))

  -- A read does not see an eviction at an earlier time.
  get_conversation-evict_expired :
      (j : Text) (now t : ℕ) (s : State Item Response)
      → IsTable s
      → now ≤ t
      → (get_conversation j t (evict_expired now s)).0 ≡ (get_conversation j t s).0
  unfolding get_conversation evict_expired
  get_conversation-evict_expired j now t s v h =
      ground (arith, get-keep (fresh_entry now) j s.store v.store)

  get_thread_items-evict_expired :
      (j : Text) (now t : ℕ) (s : State Item Response)
      → IsTable s
      → now ≤ t
      → (get_thread_items j t (evict_expired now s)).0 ≡ (get_thread_items j t s).0
  unfolding get_thread_items evict_expired
  get_thread_items-evict_expired j now t s v h =
      ground (arith, get-keep (fresh_thread now) j s.threads v.threads)

  get_conversation-set :
      (id j : Text) (e : Entry Item Response) (t : ℕ) (s : State Item Response)
      → t < e.expires_at
      → (get_conversation j t (record s { store = set id e s.store })).0
        ≡ (if same id j then some e else (get_conversation j t s).0)
  unfolding get_conversation
  get_conversation-set id j e t s h = ground (arith, get-set id j e s.store)

  get_thread_items-set :
      (id j : Text) (e : Thread Item) (t : ℕ) (s : State Item Response)
      → t < e.expires_at
      → (get_thread_items j t (record s { threads = set id e s.threads })).0
        ≡ (if same id j then some e.items else (get_thread_items j t s).0)
  unfolding get_thread_items
  get_thread_items-set id j e t s h = ground (arith, get-set id j e s.threads)

  -- With room for one more entry, a read at a time `t` after a save gives the saved entry at its
  -- key until the entry runs out, and at any other key what it would have given before.
  pub get-save_conversation :
      (n : ℕ) (id j : Text) (input output : List Item) (response : Option Response)
      (now later t : ℕ) (s : State Item Response)
      → IsTable s
      → size s < n
      → later ≤ t
      → t < now + ttl
      → (u : State Item Response) × (save_conversation
            (at_most n)
            id
            input
            output
            response
            now
            later
            s
          ≡ some u)
        × ((get_conversation j t u).0 ≡ (
            if same id j
            then some (record {
              input_items = input;
              output_items = output;
              response = response;
              expires_at = now + ttl;
            })
            else (get_conversation j t s).0))
  unfolding save_conversation
  get-save_conversation n id j input output response now later t s v room h k =
      let e : Entry Item Response = record {
        input_items = input;
        output_items = output;
        response = response;
        expires_at = now + ttl;
      } in
      let s' : State Item Response = record s { store = set id e s.store } in
      let v' : IsTable s' = record {
        store = set-Distinct id e s.store v.store;
        threads = v.threads;
      } in
      (
        evict_expired later s',
        clean_fits n later s' (omega (arith, length-set-le id e s.store)),
        get_conversation-evict_expired j later t s' v' h ∙ get_conversation-set id j e t s k,
      )

  prior_items-get_thread_items :
      (id : Text) (now : ℕ) (s : State Item Response)
      → or_else (get_thread_items id now s).0 [] ≡ prior_items (get id s.threads) now
  unfolding get_thread_items
  prior_items-get_thread_items id now s = ground arith

  -- With room for one more thread, an append to a thread makes a later read give its live items
  -- followed by the new ones, and changes no other thread.
  pub get-append_thread_items :
      (n : ℕ) (id j : Text) (x : Item) (xs : List Item) (now later last t : ℕ)
      (s : State Item Response)
      → IsTable s
      → size s < n
      → last ≤ t
      → t < later + ttl
      → (u : State Item Response) × (append_thread_items (at_most n) id (x ∷ xs) now later last s
          ≡ some u)
        × ((get_thread_items j t u).0 ≡ (
            if same id j
            then some (or_else (get_thread_items id now s).0 [] ++ x ∷ xs)
            else (get_thread_items j t s).0))
  unfolding append_thread_items
  get-append_thread_items n id j x xs now later last t s v room h k =
      let e : Thread Item = record {
        items = prior_items (get id s.threads) now ++ x ∷ xs;
        expires_at = later + ttl;
      } in
      let s' : State Item Response = record s { threads = set id e s.threads } in
      let v' : IsTable s' = record {
        store = v.store;
        threads = set-Distinct id e s.threads v.threads;
      } in
      (
        evict_expired last s',
        clean_fits n last s' (omega (arith, length-set-le id e s.threads)),
        rw (prior_items-get_thread_items id now s)
            (get_thread_items-evict_expired j last t s' v' h ∙ get_thread_items-set id j e t s k),
      )

  evict_expired_self :
      (now : ℕ) (s : State Item Response)
      → All (λ e. fresh_entry now e ≡ true) s.store
      → All (λ e. fresh_thread now e ≡ true) s.threads
      → evict_expired now s ≡ s
  unfolding evict_expired
  evict_expired_self now s f g =
      rw (keep_of_All (fresh_entry now) s.store f, keep_of_All (fresh_thread now) s.threads g)

  -- One round of the loop is enough when the state is one entry over the limit.
  clean_over :
      (n now : ℕ) (s : State Item Response)
      → evict_expired now s ≡ s
      → size s ≡ suc n
      → clean (at_most n) now s ≡ some (evict_oldest s)
  unfolding clean shrink
  clean_over n now s e over =
      rw (e, over) (ground (arith, shrink_fits n n (evict_oldest s), size-evict_oldest-le s))

  -- When the limit is reached by entries that are all live and there is no thread yet, an append
  -- ends with no thread at all: the eviction removes the oldest entry and, with it, the thread
  -- that was just written.
  pub append_thread_items_lost :
      (id : Text) (x : Item) (xs : List Item) (now later last : ℕ) (e : Text × Entry Item Response)
      (es : List (Text × Entry Item Response))
      → All (λ a. fresh_entry last a ≡ true) (e ∷ es)
      → last < later + ttl
      → append_thread_items
          (at_most (length (e ∷ es)))
          id
          (x ∷ xs)
          now
          later
          last
          (record { store = e ∷ es; threads = [] })
        ≡ some (record { store = es; threads = [] })
  unfolding append_thread_items set evict_oldest
  append_thread_items_lost id x xs now later last e es f h =
      let t : Thread Item = record {
        items = prior_items (get id []) now ++ x ∷ xs;
        expires_at = later + ttl;
      } in
      clean_over (length (e ∷ es)) last (record { store = e ∷ es; threads = (id, t) ∷ [] })
        (evict_expired_self last _ f (ground arith)) (omega arith)
