-- ===== src/KeyStore/Apply/Reload.antt =====
-- src/utils/key-store.ts, applySystemKeyStore: a load that stores plaintext keys, and the next load of the
-- rewritten configuration.
use model_proxy_v.Base.{
  ℕ, ◌+◌, ◌≡◌, true, ◌∙◌, ap, refl, sym, false, subst, eq→same, List, [], ◌∷◌, ◌++◌, Option, some,
  Text, same, same_refl, if◌then◌else◌, map, or_else, All, arith, append-nil, append_assoc,
}
use model_proxy_v.Base.Table.{get, set, get-set}
use model_proxy_v.KeyStore.Slots.{KeySlot, store_key_in_system}
use model_proxy_v.KeyStore.Apply.{
  Keytar, KeyBundle, is_plaintext, store_keys, stored_raw_keys, resolve, needs_migration, Pass,
  settle, resolve_slot, resolve_slots, is_stored, apply_to_slots, rewritten,
}

-- No two slots have one account.
abbrev pub DistinctAccounts : List KeySlot → Type 0
DistinctAccounts [] = Unit
DistinctAccounts (s ∷ ss) = All (λ t. same (t.account) (s.account) ≡ false) ss × DistinctAccounts ss

abbrev pub IsNotSentinel : KeySlot → Type 0
IsNotSentinel s = same (s.value) store_key_in_system ≡ false

-- The bundle has the key of the slot, if the slot has a plaintext key.
abbrev IsKept : KeyBundle → KeySlot → Type 0
IsKept b s = (if is_plaintext (s.value) then get (s.account) b else some (s.value)) ≡ some (s.value)

store_keys-rewritten :
    (slots : List KeySlot) (b : KeyBundle) → store_keys (map rewritten slots) b ≡ b
unfolding store_keys rewritten is_plaintext
store_keys-rewritten [] b = refl
store_keys-rewritten (s ∷ ss) b =
    ground (arith, store_keys-rewritten ss b, same_refl store_key_in_system)

stored_raw_keys-rewritten : (slots : List KeySlot) → stored_raw_keys (map rewritten slots) ≡ []
unfolding stored_raw_keys rewritten is_plaintext
stored_raw_keys-rewritten [] = refl
stored_raw_keys-rewritten (s ∷ ss) =
    ground (arith, stored_raw_keys-rewritten ss, same_refl store_key_in_system)

-- Without sentinels the second pass leaves everything.
resolve_slots_plain :
    (k : Keytar) (stored : Option KeyBundle) (p : Pass) (slots : List KeySlot)
    → All IsNotSentinel slots
    → resolve_slots k stored p slots ≡ record p { slots = p.slots ++ slots }
unfolding resolve_slots resolve_slot
resolve_slots_plain k stored p [] h = ap (λ t. record p { slots = t }) (sym (append-nil (p.slots)))
resolve_slots_plain k stored p (s ∷ ss) (n, h) = rw n (
    resolve_slots_plain k stored (record p { slots = p.slots ++ (s ∷ []) }) ss h
    ∙ ap (λ t. record p { slots = t }) (append_assoc (p.slots) (s ∷ []) ss))

abbrev pub count_plaintext : List KeySlot → ℕ
count_plaintext [] = 0
count_plaintext (s ∷ ss) = (if is_plaintext (s.value) then 1 else 0) + count_plaintext ss

-- A rewritten slot gets the key that the bundle has for its account.
resolve_slot_found :
    (k : Keytar) (stored : KeyBundle) (p : Pass) (s : KeySlot) (key : Text)
    → is_plaintext (s.value) ≡ true
    → get (s.account) (p.bundle) ≡ some key
    → resolve_slot k (some stored) p (rewritten s) ≡ record p {
      slots = p.slots ++ (record s { value = key } ∷ []);
      resolved_count = p.resolved_count + 1;
    }
unfolding resolve_slot settle resolve needs_migration rewritten
resolve_slot_found k stored p s key plain found =
    rw (plain, same_refl store_key_in_system, found) (ground arith)

plaintext-IsNotSentinel : (s : KeySlot) → is_plaintext (s.value) ≡ true → IsNotSentinel s
unfolding is_plaintext
plaintext-IsNotSentinel s h = ground arith

get_shared :
    (s t : KeySlot) (b : KeyBundle)
    → is_plaintext (t.value) ≡ true
    → s.account ≡ t.account
    → get (s.account) (store_keys (s ∷ t ∷ []) b) ≡ some (t.value)
unfolding store_keys
get_shared s t b ht e = rw ht (
    get-set (t.account) (s.account) (t.value)
      (if is_plaintext (s.value) then set (s.account) (s.value) b else b)
    ∙ rw (eq→same (t.account) (s.account) (sym e)))

resolve_two :
    (k : Keytar) (b : KeyBundle) (s t : KeySlot)
    → is_plaintext (s.value) ≡ true
    → is_plaintext (t.value) ≡ true
    → get (s.account) b ≡ some (t.value)
    → get (t.account) b ≡ some (t.value)
    → (resolve_slots k
        (some b)
        (record {
          bundle = b;
          bundle_dirty = false;
          resolved_count = 0;
          unresolved = [];
          slots = [];
        })
        (map rewritten (s ∷ t ∷ []))).slots
      ≡ record s { value = t.value } ∷ t ∷ []
unfolding resolve_slots
resolve_two k b s t hs ht fs ft =
    ap (λ (q : Pass). (resolve_slot k (some b) q (rewritten t)).slots)
      (resolve_slot_found k b
        (record {
          bundle = b;
          bundle_dirty = false;
          resolved_count = 0;
          unresolved = [];
          slots = [];
        })
        s (t.value) hs fs)
    ∙ ap (λ (q : Pass). q.slots)
        (resolve_slot_found k b
          (record {
            bundle = b;
            bundle_dirty = false;
            resolved_count = 1;
            unresolved = [];
            slots = record s { value = t.value } ∷ [];
          })
          t (t.value) ht ft)

-- Two slots with plaintext keys and one account share one entry of the bundle: the first load leaves
-- both, and the next load gives the first slot the key of the second.
pub apply_to_slots_shared :
    (k k' : Keytar) (stored : Option KeyBundle) (s t : KeySlot)
    → is_plaintext (s.value) ≡ true
    → is_plaintext (t.value) ≡ true
    → s.account ≡ t.account
    → ((apply_to_slots k stored (s ∷ t ∷ [])).slots ≡ s ∷ t ∷ [])
      × ((apply_to_slots k'
            (some ((apply_to_slots k stored (s ∷ t ∷ [])).bundle))
            (map rewritten (s ∷ t ∷ []))).slots
          ≡ record s { value = t.value } ∷ t ∷ [])
unfolding apply_to_slots
apply_to_slots_shared k k' stored s t hs ht e =
    let b : KeyBundle = store_keys (s ∷ t ∷ []) (or_else stored []) in
    rw
      (resolve_slots_plain k stored
        (record {
          bundle = store_keys (s ∷ t ∷ []) (or_else stored []);
          bundle_dirty = is_stored (stored_raw_keys (s ∷ t ∷ []));
          resolved_count = 0;
          unresolved = [];
          slots = [];
        })
        (s ∷ t ∷ []) (plaintext-IsNotSentinel s hs, (plaintext-IsNotSentinel t ht, tt)))
      (
        refl,
        rw (store_keys-rewritten (s ∷ t ∷ []) b, stored_raw_keys-rewritten (s ∷ t ∷ []))
            (resolve_two k' b s t hs ht (get_shared s t (or_else stored []) ht e)
              (subst (λ a. get a b ≡ some (t.value)) e (get_shared s t (or_else stored []) ht e))),
      )
