-- ===== src/BodyStore/Keys.antt =====
-- src/utils/body-key-store.ts, readStoredKeys and createBodyKeyStore. The state of the store is the
-- bytes of the binary. `JSON.stringify` followed by the UTF-8 of the text, and `JSON.parse` of the
-- decoded bytes, are the two fields of `Codec`: what the platform documents of them is that an object
-- of texts comes back as it was.
pub mod Vault
use model_proxy_v.Base.{
  ℕ, ◌<◌, Bool, ◌&&◌, List, [], ◌∷◌, Option, none, some, Text, codes, same, length, reverse,
  if◌then◌else◌, ◌≡◌,
}
use model_proxy_v.Base.Table.{set}
use model_proxy_v.Values.{Json, str, obj, end, field, prop}
use model_proxy_v.BodyStore.Records.{read_records, append_record}

pub record StoredKey : Type 0 where
  pub service : Text
  pub account : Text
  pub password : Text

abbrev pub to_json : StoredKey → Json
to_json k = obj (
    field (codes "service") (str k.service)
      (field (codes "account") (str k.account) (field (codes "password") (str k.password) end)))

pub record Codec : Type 1 where
  pub stringify : Json → List ℕ
  -- `none`: the parse throws
  pub parse : List ℕ → Option Json
  pub parse-stringify : (k : StoredKey) → parse (stringify (to_json k)) ≡ some (to_json k)
  pub stringify_filled : (k : StoredKey) → 0 < length (stringify (to_json k))

-- A loop over the records: it ran out of fuel, it threw, or it gives a value.
pub data Outcome (A : Type 0) : Type 0 where
  stuck : Outcome A
  malformed : Outcome A
  done : A → Outcome A

abbrev pub map_done : {A B : Type 0} → (A → B) → Outcome A → Outcome B
map_done f stuck = stuck
map_done f malformed = malformed
map_done f (done a) = done (f a)

-- `parsed.service` and the like, with `typeof … === 'string'`
unfoldable pub text_prop : Text → Json → Option Text
text_prop k (obj fs) = elim (prop k fs) [ some (str s) ↦ some s | _ ↦ none ]
text_prop k _ = none

-- The record of a payload that is a credential. A parsed `null` and a parse that threw are refused
-- alike.
unfoldable pub key_of_json : Option Json → Option StoredKey
unfolding text_prop
key_of_json none = none
key_of_json (some j) = elim (text_prop (codes "service") j) [
  | none ↦ none
  | some s ↦ elim (text_prop (codes "account") j) [
    | none ↦ none
    | some a ↦ elim (text_prop (codes "password") j) [
      | none ↦ none
      | some p ↦ some (record { service = s; account = a; password = p })
    ]
  ]
]

abbrev pub is_key : Text → Text → StoredKey → Bool
is_key service account k = same k.service service && same k.account account

-- The loop of getPassword over the keys, newest first.
unfoldable pub find_password : Text → Text → List StoredKey → Option Text
find_password service account [] = none
find_password service account (k ∷ ks) =
    if is_key service account k then some k.password else find_password service account ks

-- The loop of findCredentials over the keys, oldest first, with its `Map`.
unfoldable pub latest_of : Text → List (Text × Text) → List StoredKey → List (Text × Text)
latest_of service latest [] = latest
latest_of service latest (k ∷ ks) =
    latest_of service (if same k.service service then set k.account k.password latest else latest)
      ks

-- A malformed payload throws.
abbrev pub add_key : Option StoredKey → Outcome (List StoredKey) → Outcome (List StoredKey)
add_key none rest = malformed
add_key (some k) rest = map_done (◌∷◌ k) rest

module _ (c : Codec) where
  open c use {stringify, parse}

  -- `payloads.map(...)`
  unfoldable pub parse_keys : List (List ℕ) → Outcome (List StoredKey)
  parse_keys [] = done []
  parse_keys (p ∷ ps) = add_key (key_of_json (parse p)) (parse_keys ps)

  abbrev pub parse_read : Option (List (List ℕ)) → Outcome (List StoredKey)
  parse_read none = stuck
  parse_read (some ps) = parse_keys ps

  unfoldable pub read_stored_keys : List ℕ → Outcome (List StoredKey)
  read_stored_keys binary = parse_read (read_records binary)

  unfoldable pub get_password : List ℕ → Text → Text → Outcome (Option Text)
  get_password binary service account =
      map_done (λ ks. find_password service account (reverse ks)) (read_stored_keys binary)

  unfoldable pub set_password : List ℕ → Text → Text → Text → List ℕ
  set_password binary service account password =
      append_record binary
        (stringify (to_json (record { service = service; account = account; password = password })))

  unfoldable pub find_credentials : List ℕ → Text → Outcome (List (Text × Text))
  find_credentials binary service = map_done (latest_of service []) (read_stored_keys binary)
