-- ===== src/KeyStore/Apply.antt =====
-- src/utils/key-store.ts, readKeyBundle and applySystemKeyStore. The keychain is @github/keytar's: its
-- answers are the record Keytar. `parse` stands for JSON.parse.
pub mod Laws
pub mod Reload
pub mod Tests
use model_proxy_v.Base.{
  ℕ, ◌+◌, Bool, true, false, not, ◌&&◌, ◌||◌, List, [], ◌∷◌, ◌++◌, Option, none, some, Text, codes,
  same, keep, if◌then◌else◌, map, or_else,
}
use model_proxy_v.Base.Table.{get, set}
use model_proxy_v.Values.{Json, str, obj, Fields, end, field, is_filled}
use model_proxy_v.KeyStore.Match.{Credential, find_best_credential}
use model_proxy_v.KeyStore.Slots.{KeySlot, store_key_in_system}

abbrev pub key_store_bundle_account : Text
key_store_bundle_account = codes "__api_keys_v1__"

abbrev pub KeyBundle : Type 0
KeyBundle = List (Text × Text)

-- What `findCredentials` does: not supported, an error or a time-out, or a list.
pub data Search : Type 0 where
  unsupported : Search
  failed : Search
  found : List Credential → Search

pub record Keytar : Type 0 where
  pub get_password : Text → Option Text
  pub find_credentials : Search

pub data KeyStoreError : Type 0 where
  not_json : KeyStoreError
  not_object : KeyStoreError
  not_string : Text → KeyStoreError

pub data Result (A : Type 0) : Type 0 where
  ok : A → Result A
  err : KeyStoreError → Result A

unfoldable pub bundle_of : KeyBundle → Fields → Result KeyBundle
bundle_of bundle end = ok bundle
bundle_of bundle (field account (str key) fields) = bundle_of (set account key bundle) fields
bundle_of bundle (field account _ fields) = err (not_string account)

unfoldable pub parsed_bundle : Option Json → Result (Option KeyBundle)
parsed_bundle none = err not_json
parsed_bundle (some (obj fields)) = elim (bundle_of [] fields) [
  | ok bundle ↦ ok (some bundle)
  | err e ↦ err e
]
parsed_bundle (some _) = err not_object

unfoldable pub read_key_bundle : (Text → Option Json) → Keytar → Result (Option KeyBundle)
unfolding parsed_bundle
read_key_bundle parse keytar = elim (keytar.get_password key_store_bundle_account) [
  | none ↦ ok none
  | some serialized ↦ parsed_bundle (parse serialized)
]

-- `!raw || raw === store_key_in_system` is the negation.
unfoldable pub is_plaintext : Text → Bool
is_plaintext raw = is_filled raw && not (same raw store_key_in_system)

-- The first pass: plaintext keys go into the bundle.
unfoldable pub store_keys : List KeySlot → KeyBundle → KeyBundle
unfolding is_plaintext
store_keys [] bundle = bundle
store_keys (slot ∷ slots) bundle =
    store_keys slots
      (if is_plaintext (slot.value) then set (slot.account) (slot.value) bundle else bundle)

unfoldable pub stored_raw_keys : List KeySlot → List Text
unfolding is_plaintext
stored_raw_keys slots = keep is_plaintext (map (λ (slot : KeySlot). slot.value) slots)

unfoldable pub credentials_of : KeyBundle → List Credential
credentials_of [] = []
credentials_of ((account, password) ∷ bundle) =
    record { account = account; password = password } ∷ credentials_of bundle

unfoldable pub find_best_effort_key : Search → Text → Option Credential
find_best_effort_key unsupported wanted = none
find_best_effort_key failed wanted = none
find_best_effort_key (found credentials) wanted =
    find_best_credential (keep (λ c. not (same (c.account) key_store_bundle_account)) credentials)
      wanted

-- `a ?? b`, where both are looked up in turn
abbrev pub or_next : Option Credential → Option Credential → Option Credential
or_next none o = o
or_next (some c) o = some c

abbrev pub at_account : Text → Option Text → Option Credential
at_account account none = none
at_account account (some key) = some (record { account = account; password = key })

-- The key for a sentinel: from the bundle, from an item of the old format if there is no bundle, from
-- the best match in the bundle, from the best match among the old items if there is no bundle.
unfoldable pub resolve : Keytar → Option KeyBundle → KeyBundle → Text → Option Credential
unfolding find_best_effort_key credentials_of
resolve keytar none bundle account = or_next (at_account account (get account bundle)) (
    or_next (at_account account (keytar.get_password account)) (
      or_next (find_best_credential (credentials_of bundle) account)
        (find_best_effort_key (keytar.find_credentials) account)))
resolve keytar (some stored) bundle account =
    or_next (at_account account (get account bundle))
      (find_best_credential (credentials_of bundle) account)

-- The variables of the second pass.
pub record Pass : Type 0 where
  pub bundle : KeyBundle
  pub bundle_dirty : Bool
  pub resolved_count : ℕ
  pub unresolved : List Text
  pub slots : List KeySlot

-- `storedBundle === null && bundle.get(slot.account) !== resolved.key`
unfoldable pub needs_migration : Option KeyBundle → KeyBundle → Text → Text → Bool
needs_migration (some stored) bundle account key = false
needs_migration none bundle account key = elim (get account bundle) [
  | none ↦ true
  | some old ↦ not (same old key)
]

-- What the second pass does with one sentinel slot, from the key found for it.
unfoldable pub settle : Option KeyBundle → Pass → KeySlot → Option Credential → Pass
unfolding needs_migration
settle stored p slot none = record p {
  slots = p.slots ++ (record slot { value = [] } ∷ []);
  unresolved = p.unresolved ++ (slot.location ∷ []);
}
settle stored p slot (some resolved) =
    let migrates = needs_migration stored (p.bundle) (slot.account) (resolved.password) in
    record p {
      bundle = if migrates then set (slot.account) (resolved.password) (p.bundle) else p.bundle;
      bundle_dirty = p.bundle_dirty || migrates;
      resolved_count = p.resolved_count + 1;
      slots = p.slots ++ (record slot { value = resolved.password } ∷ []);
    }

unfoldable pub resolve_slot : Keytar → Option KeyBundle → Pass → KeySlot → Pass
unfolding settle resolve
resolve_slot keytar stored p slot =
    if same (slot.value) store_key_in_system
    then settle stored p slot (resolve keytar stored (p.bundle) (slot.account))
    else record p { slots = p.slots ++ (slot ∷ []) }

unfoldable pub resolve_slots : Keytar → Option KeyBundle → Pass → List KeySlot → Pass
resolve_slots keytar stored p [] = p
resolve_slots keytar stored p (slot ∷ slots) =
    resolve_slots keytar stored (resolve_slot keytar stored p slot) slots

abbrev pub is_stored : List Text → Bool
is_stored [] = false
is_stored (raw ∷ raws) = true

-- Both passes over the slots, behind the reading of the stored bundle.
unfoldable pub apply_to_slots : Keytar → Option KeyBundle → List KeySlot → Pass
unfolding stored_raw_keys
apply_to_slots keytar stored slots =
    resolve_slots keytar stored
      (record {
        bundle = store_keys slots (or_else stored []);
        bundle_dirty = is_stored (stored_raw_keys slots);
        resolved_count = 0;
        unresolved = [];
        slots = [];
      })
      slots

-- `enabled` is `isNodeEnvironment && config.general?.store_key_in_system === true`.
unfoldable pub apply_system_key_store :
    (Text → Option Json) → Bool → Keytar → List KeySlot → Result (Option Pass)
unfolding read_key_bundle
apply_system_key_store parse false keytar slots = ok none
apply_system_key_store parse true keytar slots = elim (read_key_bundle parse keytar) [
  | err e ↦ err e
  | ok stored ↦ ok (some (apply_to_slots keytar stored slots))
]

-- The slot as the rewritten configuration file has it.
unfoldable pub rewritten : KeySlot → KeySlot
unfolding is_plaintext
rewritten slot =
    if is_plaintext (slot.value) then record slot { value = store_key_in_system } else slot
