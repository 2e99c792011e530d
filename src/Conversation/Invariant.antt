-- ===== src/Conversation/Invariant.antt =====
-- What every write establishes and every read keeps.
use model_proxy_v.Base.{
  ℕ, ◌≤◌, ◌≡◌, refl, sym, subst, inl, inr, Option-cases, true, false, List, [], ◌∷◌, Option, none,
  some, Text, All, All-drop, All-keep_self, ltb-false→le, arith,
}
use model_proxy_v.Base.Table.{
  get, Distinct, set-Distinct, keep-Distinct, drop-Distinct, delete-Distinct, length-delete-le,
}
use model_proxy_v.Conversation.{
  Limit, at_most, State, size, exceeds, evict_expired, clean, fresh_entry, fresh_thread,
  save_conversation, append_thread_items, get_conversation, get_thread_items,
}
use model_proxy_v.Conversation.Eviction.{shrink-Shrunk, shrink_ends}

module _ {Item Response : Type 0} where
  -- Keys stand once in either map.
  pub record IsTable (s : State Item Response) : Type 0 where
    pub store : Distinct s.store
    pub threads : Distinct s.threads

  -- The bound of the store, and at a time `now` no entry that has run out.
  pub record IsClean (n now : ℕ) (s : State Item Response) : Type 0 where
    pub table : IsTable s
    pub bounded : size s ≤ n
    pub fresh_store : All (λ e. fresh_entry now e ≡ true) s.store
    pub fresh_threads : All (λ e. fresh_thread now e ≡ true) s.threads

  clean-IsClean :
      (n now : ℕ) (s t : State Item Response)
      → IsTable s
      → clean (at_most n) now s ≡ some t
      → IsClean n now t
  unfolding clean evict_expired
  clean-IsClean n now s t v h =
      let e = evict_expired now s in
      let r = shrink-Shrunk (at_most n) (size e) e t h in
      subst (IsClean n now) (sym r.result) (record {
        table = record {
          store = drop-Distinct r.rounds e.store (keep-Distinct (fresh_entry now) s.store v.store);
          threads =
              drop-Distinct r.rounds e.threads
                (keep-Distinct (fresh_thread now) s.threads v.threads);
        };
        bounded =
            ltb-false→le n _ (subst (λ u. exceeds (at_most n) (size u) ≡ false) r.result r.within);
        fresh_store = All-drop _ r.rounds _ (All-keep_self (fresh_entry now) s.store);
        fresh_threads = All-drop _ r.rounds _ (All-keep_self (fresh_thread now) s.threads);
      })

  clean_ends :
      (n now : ℕ) (s : State Item Response)
      → (t : State Item Response) × (clean (at_most n) now s ≡ some t)
  unfolding clean
  clean_ends n now s =
      shrink_ends n (size (evict_expired now s)) (evict_expired now s) (omega arith)

  -- What a write is: it ends, in a state that is clean at the time of its eviction.
  abbrev pub Writes : ℕ → ℕ → Option (State Item Response) → Type 0
  Writes n now r = (t : State Item Response) × (r ≡ some t) × IsClean n now t

  clean-Writes :
      (n now : ℕ) (s : State Item Response) → IsTable s → Writes n now (clean (at_most n) now s)
  clean-Writes n now s v = let (t, e) = clean_ends n now s in (t, e, clean-IsClean n now s t v e)

  -- A save ends for every limit that is a number and not negative. The state then holds each key
  -- once, at most as many entries as the limit, and none that has run out at its eviction.
  pub save_conversation-Writes :
      (n : ℕ) (id : Text) (input output : List Item) (response : Option Response) (now later : ℕ)
      (s : State Item Response)
      → IsTable s
      → Writes n later (save_conversation (at_most n) id input output response now later s)
  unfolding save_conversation
  save_conversation-Writes n id input output response now later s v =
      clean-Writes n later _
        (record { store = set-Distinct id _ s.store v.store; threads = v.threads })

  pub append_thread_items-Writes :
      (n : ℕ) (id : Text) (x : Item) (xs : List Item) (now later last : ℕ) (s : State Item Response)
      → IsTable s
      → Writes n last (append_thread_items (at_most n) id (x ∷ xs) now later last s)
  unfolding append_thread_items
  append_thread_items-Writes n id x xs now later last s v =
      clean-Writes n last _
        (record { store = v.store; threads = set-Distinct id _ s.threads v.threads })

  -- The state holds each key once and is within the limit.
  pub record IsBounded (n : ℕ) (s : State Item Response) : Type 0 where
    pub table : IsTable s
    pub bounded : size s ≤ n

  get_conversation-IsBounded :
      (n : ℕ) (id : Text) (now : ℕ) (s : State Item Response)
      → IsBounded n s
      → IsBounded n (get_conversation id now s).1
  unfolding get_conversation
  get_conversation-IsBounded n id now s v = elim (Option-cases (get id s.store)) [
    | inl e ↦ rw (e, get_conversation) v
    | inr (c, e) ↦
        rw (e, get_conversation)
          (ground (arith, delete-Distinct id s.store v.table.store, length-delete-le id s.store))
  ]

  get_thread_items-IsBounded :
      (n : ℕ) (id : Text) (now : ℕ) (s : State Item Response)
      → IsBounded n s
      → IsBounded n (get_thread_items id now s).1
  unfolding get_thread_items
  get_thread_items-IsBounded n id now s v = elim (Option-cases (get id s.threads)) [
    | inl e ↦ rw (e, get_thread_items) v
    | inr (c, e) ↦
        rw (e, get_thread_items)
          (ground
            (arith, delete-Distinct id s.threads v.table.threads, length-delete-le id s.threads))
  ]

-- The calls of the module, with the readings of the clock.
pub data Call (Item Response : Type 0) : Type 0 where
  reads : Text → ℕ → Call Item Response
  saves : Text → List Item → List Item → Option Response → ℕ → ℕ → Call Item Response
  reads_thread : Text → ℕ → Call Item Response
  appends : Text → List Item → ℕ → ℕ → ℕ → Call Item Response

module _ {Item Response : Type 0} where
  pub step : Limit → Call Item Response → State Item Response → Option (State Item Response)
  step max (reads id now) s = some (get_conversation id now s).1
  step max (saves id input output response now later) s =
      save_conversation max id input output response now later s
  step max (reads_thread id now) s = some (get_thread_items id now s).1
  step max (appends id items now later last) s = append_thread_items max id items now later last s

  pub run : Limit → List (Call Item Response) → State Item Response → Option (State Item Response)
  unfolding step
  run max [] s = some s
  run max (c ∷ cs) s = elim (step max c s) [ none ↦ none | some t ↦ run max cs t ]

  abbrev pub Bounds : ℕ → Option (State Item Response) → Type 0
  Bounds n r = (t : State Item Response) × (r ≡ some t) × IsBounded n t

  Bounds-of_Writes : (n now : ℕ) (r : Option (State Item Response)) → Writes n now r → Bounds n r
  Bounds-of_Writes n now r (t, e, c) = (t, e, record { table = c.table; bounded = c.bounded })

  step-Bounds :
      (n : ℕ) (c : Call Item Response) (s : State Item Response)
      → IsBounded n s
      → Bounds n (step (at_most n) c s)
  unfolding step append_thread_items
  step-Bounds n (reads id now) s v = (_, refl, get_conversation-IsBounded n id now s v)
  step-Bounds n (saves id input output response now later) s v =
      Bounds-of_Writes n later _
        (save_conversation-Writes n id input output response now later s v.table)
  step-Bounds n (reads_thread id now) s v = (_, refl, get_thread_items-IsBounded n id now s v)
  step-Bounds n (appends id [] now later last) s v = (s, refl, v)
  step-Bounds n (appends id (x ∷ xs) now later last) s v =
      Bounds-of_Writes n last _ (append_thread_items-Writes n id x xs now later last s v.table)

  -- Any sequence of calls on a bounded state ends under a limit that is a natural number, and
  -- leaves a state with each key once and no more entries than the limit.
  pub run-Bounds :
      (n : ℕ) (cs : List (Call Item Response)) (s : State Item Response)
      → IsBounded n s
      → Bounds n (run (at_most n) cs s)
  unfolding run
  run-Bounds n [] s v = (s, refl, v)
  run-Bounds n (c ∷ cs) s v =
      let (t, e, w) = step-Bounds n c s v in rw (e, run) (run-Bounds n cs t w)
