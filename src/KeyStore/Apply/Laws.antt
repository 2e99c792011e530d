-- ===== src/KeyStore/Apply/Laws.antt =====
-- src/utils/key-store.ts, applySystemKeyStore: what the slots hold behind both passes.
use model_proxy_v.Base.{
  ℕ, ◌+◌, ◌≡◌, ◌∙◌, refl, sym, subst, Bool, true, false, not, List, [], ◌∷◌, ◌++◌, Option, none,
  some, Text, same, if◌then◌else◌, map, or_else, All, All-append, All-keep, In, length, arith,
  Bool-cases, inl, inr, length-append, append_assoc, append-nil,
}
use mathlib.Core.List.{map-append}
use model_proxy_v.Base.Table.{get, set, All-set}
use model_proxy_v.KeyStore.Match.{Credential, find_best_credential}
use model_proxy_v.KeyStore.Match.Laws.{IsChoice, find_best_credential-IsChoice}
use model_proxy_v.KeyStore.Slots.{KeySlot, store_key_in_system}
use model_proxy_v.KeyStore.Apply.{
  Keytar, KeyBundle, Search, unsupported, failed, found, is_plaintext, store_keys, credentials_of,
  find_best_effort_key, or_next, at_account, resolve, Pass, settle, resolve_slot, resolve_slots,
  apply_to_slots, key_store_bundle_account,
}
use model_proxy_v.KeyStore.Apply.Reload.{IsNotSentinel}

-- A key that is not the sentinel.
abbrev pub IsRealKey : Text → Type 0
IsRealKey key = same key store_key_in_system ≡ false

abbrev pub IsRealEntry : Text × Text → Type 0
IsRealEntry e = IsRealKey (e.1)

abbrev pub IsRealCredential : Credential → Type 0
IsRealCredential c = IsRealKey (c.password)

abbrev pub IsRealAnswer : Option Text → Type 0
IsRealAnswer none = Unit
IsRealAnswer (some key) = IsRealKey key

abbrev pub IsRealSearch : Search → Type 0
IsRealSearch unsupported = Unit
IsRealSearch failed = Unit
IsRealSearch (found cs) = All IsRealCredential cs

abbrev IsRealChoice : Option Credential → Type 0
IsRealChoice none = Unit
IsRealChoice (some c) = IsRealCredential c

get-IsRealAnswer : (a : Text) (b : KeyBundle) → All IsRealEntry b → IsRealAnswer (get a b)
unfolding get
get-IsRealAnswer a [] h = tt
get-IsRealAnswer a ((j, v) ∷ b) (r, h) = elim (Bool-cases (same j a)) [
  | inl e ↦ rw e r
  | inr e ↦ rw e (get-IsRealAnswer a b h)
]

credentials_of-IsReal :
    (b : KeyBundle) → All IsRealEntry b → All IsRealCredential (credentials_of b)
unfolding credentials_of
credentials_of-IsReal [] h = tt
credentials_of-IsReal (e ∷ b) (r, h) = (r, credentials_of-IsReal b h)

All-at :
    (c : Credential) (cs : List Credential) → In c cs → All IsRealCredential cs → IsRealCredential c
All-at c [] i h = absurd i
All-at c (d ∷ cs) (inl e) (r, h) = subst IsRealCredential (sym e) r
All-at c (d ∷ cs) (inr i) (r, h) = All-at c cs i h

choice-IsReal :
    (wanted : Text) (cs : List Credential) (o : Option Credential)
    → IsChoice wanted cs o
    → All IsRealCredential cs
    → IsRealChoice o
choice-IsReal wanted cs none c h = tt
choice-IsReal wanted cs (some d) (s, e, here, lose) h = All-at d cs here h

best-IsReal :
    (wanted : Text) (cs : List Credential)
    → All IsRealCredential cs
    → IsRealChoice (find_best_credential cs wanted)
best-IsReal wanted cs h =
    choice-IsReal wanted cs (find_best_credential cs wanted)
      (find_best_credential-IsChoice wanted cs) h

effort-IsReal :
    (s : Search) (wanted : Text) → IsRealSearch s → IsRealChoice (find_best_effort_key s wanted)
unfolding find_best_effort_key
effort-IsReal unsupported wanted h = tt
effort-IsReal failed wanted h = tt
effort-IsReal (found cs) wanted h =
    best-IsReal wanted _
      (All-keep IsRealCredential (λ c. not (same (c.account) key_store_bundle_account)) cs h)

at_account-IsReal : (a : Text) (o : Option Text) → IsRealAnswer o → IsRealChoice (at_account a o)
at_account-IsReal a none h = tt
at_account-IsReal a (some k) h = h

or_next-IsReal :
    (o p : Option Credential) → IsRealChoice o → IsRealChoice p → IsRealChoice (or_next o p)
or_next-IsReal none p h k = k
or_next-IsReal (some c) p h k = h

module _ (k : Keytar) (answers : (a : Text) → IsRealAnswer (k.get_password a))
    (searched : IsRealSearch (k.find_credentials)) where
  resolve-IsReal :
      (stored : Option KeyBundle) (b : KeyBundle) (a : Text)
      → All IsRealEntry b
      → IsRealChoice (resolve k stored b a)
  unfolding resolve
  resolve-IsReal none b a h = or_next-IsReal _ _ (at_account-IsReal a _ (get-IsRealAnswer a b h)) (
      or_next-IsReal _ _ (at_account-IsReal a _ (answers a)) (
        or_next-IsReal _ _ (best-IsReal a _ (credentials_of-IsReal b h))
          (effort-IsReal (k.find_credentials) a searched)))
  resolve-IsReal (some stored) b a h =
      or_next-IsReal _ _ (at_account-IsReal a _ (get-IsRealAnswer a b h))
        (best-IsReal a _ (credentials_of-IsReal b h))

-- The slots done so far.
record IsClean (done : List KeySlot) (sentinels : ℕ) (p : Pass) : Type 0 where
  bundled : All IsRealEntry (p.bundle)
  cleared : All IsNotSentinel (p.slots)
  counted : p.resolved_count + length (p.unresolved) ≡ sentinels
  kept : map (λ s. s.location) (p.slots) ≡ map (λ s. s.location) done

locations_kept :
    (done out : List KeySlot) (s t : KeySlot)
    → map (λ (s : KeySlot). s.location) out ≡ map (λ (s : KeySlot). s.location) done
    → t.location ≡ s.location
    → map (λ (s : KeySlot). s.location) (out ++ (t ∷ []))
      ≡ map (λ (s : KeySlot). s.location) (done ++ (s ∷ []))
locations_kept done out s t h e =
    map-append (λ (s : KeySlot). s.location) out (t ∷ [])
    ∙ rw (h, e) (sym (map-append (λ (s : KeySlot). s.location) done (s ∷ [])))

settle_bundle :
    (b : Bool) (a key : Text) (m : KeyBundle)
    → All IsRealEntry m
    → IsRealKey key
    → All IsRealEntry (if b then set a key m else m)
settle_bundle true a key m h k = All-set IsRealEntry a key m h k
settle_bundle false a key m h k = h

settle-IsClean :
    (stored : Option KeyBundle) (done : List KeySlot) (n : ℕ) (p : Pass) (s : KeySlot)
    (o : Option Credential)
    → IsRealChoice o
    → IsClean done n p
    → IsClean (done ++ (s ∷ [])) (n + 1) (settle stored p s o)
unfolding settle same
settle-IsClean stored done n p s none r c = record {
  bundled = c.bundled;
  cleared = All-append IsNotSentinel (p.slots) _ (c.cleared) (refl, tt);
  counted = omega (arith, length-append (p.unresolved) (s.location ∷ []), c.counted);
  kept = locations_kept done (p.slots) s _ (c.kept) refl;
}
settle-IsClean stored done n p s (some d) r c = record {
  bundled = settle_bundle _ (s.account) (d.password) (p.bundle) (c.bundled) r;
  cleared = All-append IsNotSentinel (p.slots) _ (c.cleared) (r, tt);
  counted = omega (arith, c.counted);
  kept = locations_kept done (p.slots) s _ (c.kept) refl;
}

abbrev pub count_sentinels : List KeySlot → ℕ
count_sentinels [] = 0
count_sentinels (s ∷ ss) =
    (if same (s.value) store_key_in_system then 1 else 0) + count_sentinels ss

plaintext-IsRealKey : (raw : Text) → is_plaintext raw ≡ true → IsRealKey raw
unfolding is_plaintext
plaintext-IsRealKey raw h = ground arith

stored_bundle :
    (s : KeySlot) (b : KeyBundle)
    → All IsRealEntry b
    → All IsRealEntry (if is_plaintext (s.value) then set (s.account) (s.value) b else b)
stored_bundle s b h = elim (Bool-cases (is_plaintext (s.value))) [
  | inl e ↦ rw e (All-set IsRealEntry (s.account) (s.value) b h (plaintext-IsRealKey (s.value) e))
  | inr e ↦ rw e h
]

store_keys-IsReal :
    (slots : List KeySlot) (b : KeyBundle)
    → All IsRealEntry b
    → All IsRealEntry (store_keys slots b)
unfolding store_keys
store_keys-IsReal [] b h = h
store_keys-IsReal (s ∷ ss) b h = store_keys-IsReal ss _ (stored_bundle s b h)

module _ (k : Keytar) (answers : (a : Text) → IsRealAnswer (k.get_password a))
    (searched : IsRealSearch (k.find_credentials)) (stored : Option KeyBundle) where
  resolve_slot-IsClean :
      (done : List KeySlot) (n : ℕ) (p : Pass) (s : KeySlot)
      → IsClean done n p
      → IsClean
          (done ++ (s ∷ []))
          (n + (if same (s.value) store_key_in_system then 1 else 0))
          (resolve_slot k stored p s)
  unfolding resolve_slot
  resolve_slot-IsClean done n p s c = elim (Bool-cases (same (s.value) store_key_in_system)) [
    | inl e ↦ rw e (
        settle-IsClean stored done n p s _
          (resolve-IsReal k answers searched stored (p.bundle) (s.account) (c.bundled)) c)
    | inr e ↦ rw e (record {
      bundled = c.bundled;
      cleared = All-append IsNotSentinel (p.slots) _ (c.cleared) (e, tt);
      counted = omega (arith, c.counted);
      kept = locations_kept done (p.slots) s s (c.kept) refl;
    })
  ]

  resolve_slots-IsClean :
      (done : List KeySlot) (n : ℕ) (p : Pass) (ss : List KeySlot)
      → IsClean done n p
      → IsClean (done ++ ss) (n + count_sentinels ss) (resolve_slots k stored p ss)
  unfolding resolve_slots
  resolve_slots-IsClean done n p [] c = let e : n + 0 ≡ n = omega arith in rw (append-nil done, e) c
  resolve_slots-IsClean done n p (s ∷ ss) c =
      let later =
        resolve_slots-IsClean (done ++ (s ∷ []))
          (n + (if same (s.value) store_key_in_system then 1 else 0)) (resolve_slot k stored p s) ss
          (resolve_slot-IsClean done n p s c) in
      let e : n + (if same (s.value) store_key_in_system then 1 else 0) + count_sentinels ss
          ≡ n + count_sentinels (s ∷ ss) =
        omega arith in
      subst
        (λ d.
          IsClean d (n + count_sentinels (s ∷ ss))
            (resolve_slots k stored (resolve_slot k stored p s) ss))
        (append_assoc done (s ∷ []) ss)
        (subst
          (λ m.
            IsClean ((done ++ (s ∷ [])) ++ ss) m
              (resolve_slots k stored (resolve_slot k stored p s) ss))
          e later)

  -- Suppose that no key of the stored bundle and no answer of the keychain is the sentinel. Behind both
  -- passes no slot holds the sentinel, the slots stand at the same locations in the same order, and
  -- the sentinels of the configuration are the resolved ones and the ones reported as unresolved.
  pub apply_to_slots-IsNotSentinel :
      (slots : List KeySlot)
      → All IsRealEntry (or_else stored [])
      → All IsNotSentinel ((apply_to_slots k stored slots).slots)
        × (map (λ s. s.location) ((apply_to_slots k stored slots).slots)
            ≡ map (λ s. s.location) slots)
        × ((apply_to_slots k stored slots).resolved_count
              + length ((apply_to_slots k stored slots).unresolved)
            ≡ count_sentinels slots)
  unfolding apply_to_slots
  apply_to_slots-IsNotSentinel slots h =
      let c = resolve_slots-IsClean [] 0 _ slots (record {
        bundled = store_keys-IsReal slots (or_else stored []) h;
        cleared = tt;
        counted = refl;
        kept = refl;
      }) in
      (c.cleared, c.kept, omega (arith, c.counted))
