-- ===== src/BodyStore/Keys/Vault.antt =====
-- The key store of the binary refines a vault: a function from a service and an account to the last
-- password that was set.
use mathlib.Core.Path.{fun_ext}
use mathlib.Core.List.{reverse-append, reverse-cons}
use model_proxy_v.Base.{
  ℕ, ◌+◌, ◌^◌, ◌<◌, ◌&&◌, List, [], ◌∷◌, ◌++◌, Option, none, some, Text, same, same_iff, Bool-cases,
  length, reverse, if◌then◌else◌, ◌≡◌, refl, sym, ap, subst, ◌∙◌, inl, inr, arith,
}
use model_proxy_v.Base.Table.{get, set, get-set, Distinct, set-Distinct}
use model_proxy_v.Values.{prop}
use model_proxy_v.BodyStore.Records.{append_record}
use model_proxy_v.BodyStore.Records.Chain.{read_records-append_record}
use model_proxy_v.BodyStore.Keys.{
  StoredKey, to_json, Codec, Outcome, stuck, malformed, done, key_of_json, is_key, add_key,
  parse_read, find_password, latest_of, parse_keys, read_stored_keys, get_password, set_password,
  find_credentials,
}

abbrev pub Vault : Type 0
Vault = Text → Text → Option Text

-- The vault with one password set.
abbrev pub store : Vault → Text → Text → Text → Vault
store v service account password s a =
    if same service s && same account a then some password else v s a

-- The vault of the keys, oldest first.
abbrev pub vault_of : List StoredKey → Vault
vault_of ks s a = find_password s a (reverse ks)

pub key_of_json-to_json : (k : StoredKey) → key_of_json (some (to_json k)) ≡ some k
unfolding key_of_json prop same
key_of_json-to_json k = refl

vault_of-append :
    (ks : List StoredKey) (k : StoredKey) (s a : Text)
    → vault_of (ks ++ k ∷ []) s a ≡ store (vault_of ks) k.service k.account k.password s a
unfolding find_password
vault_of-append ks k s a = rw (reverse-append ks (k ∷ []))

abbrev or_else_option : Option Text → Option Text → Option Text
or_else_option none b = b
or_else_option (some a) b = some a

or_else_option-none : (o : Option Text) → or_else_option o none ≡ o
or_else_option-none none = refl
or_else_option-none (some a) = refl

find_password-append :
    (s a : Text) (ks more : List StoredKey)
    → find_password s a (ks ++ more)
      ≡ or_else_option (find_password s a ks) (find_password s a more)
unfolding find_password
find_password-append s a [] more = refl
find_password-append s a (k ∷ ks) more = ground (arith, find_password-append s a ks more)

vault_of-cons :
    (k : StoredKey) (ks : List StoredKey) (s a : Text)
    → vault_of (k ∷ ks) s a
      ≡ or_else_option (vault_of ks s a) (if is_key s a k then some k.password else none)
unfolding find_password
vault_of-cons k ks s a = rw (reverse-cons k ks) (find_password-append s a (reverse ks) (k ∷ []))

-- The `Map` of a service holds what the vault holds for its accounts.
get-latest_of :
    (service a : Text) (latest : List (Text × Text)) (ks : List StoredKey)
    → get a (latest_of service latest ks) ≡ or_else_option (vault_of ks service a) (get a latest)
unfolding latest_of find_password
get-latest_of service a latest [] = refl
get-latest_of service a latest (k ∷ ks) =
    let next : List (Text × Text) =
      if same k.service service then set k.account k.password latest else latest in
    let here : get a next ≡ (if is_key service a k then some k.password else get a latest) =
      ground (
        arith,
        get-set k.account a k.password latest,
        same_iff k.service service,
        same_iff service k.service,
        same_iff k.account a,
        same_iff a k.account,
      ) in
    get-latest_of service a next ks ∙ rw (here, vault_of-cons k ks service a) (ground arith)

latest_of-Distinct :
    (service : Text) (latest : List (Text × Text)) (ks : List StoredKey)
    → Distinct latest
    → Distinct (latest_of service latest ks)
unfolding latest_of
latest_of-Distinct service latest [] d = d
latest_of-Distinct service latest (k ∷ ks) d =
    latest_of-Distinct service
      (if same k.service service then set k.account k.password latest else latest) ks
      (elim (Bool-cases (same k.service service)) [
        | inl e ↦ rw e (set-Distinct k.account k.password latest d)
        | inr e ↦ rw e d
      ])

-- What getPassword and findCredentials answer for a binary is what a vault holds.
pub record Serves (c : Codec) (binary : List ℕ) (v : Vault) : Type 0 where
  pub get_lem : (s a : Text) → get_password c binary s a ≡ done (v s a)
  pub find_lem :
      (s : Text)
      → (found : List (Text × Text)) × (find_credentials c binary s ≡ done found)
        × Distinct found
        × ((a : Text) → get a found ≡ v s a)

module _ (c : Codec) where
  -- A binary whose records are these keys serves their vault.
  Serves-vault_of :
      (binary : List ℕ) (ks : List StoredKey)
      → read_stored_keys c binary ≡ done ks
      → Serves c binary (vault_of ks)
  unfolding get_password find_credentials get
  Serves-vault_of binary ks e = record {
    get_lem = λ s a. rw e;
    find_lem = λ s. (
      latest_of s [] ks,
      rw e,
      latest_of-Distinct s [] ks tt,
      λ a. get-latest_of s a [] ks ∙ or_else_option-none (vault_of ks s a),
    );
  }

  add_key-append :
      (first : Option StoredKey) (rest longer : Outcome (List StoredKey)) (ks : List StoredKey)
      (k : StoredKey)
      → add_key first rest ≡ done ks
      → ((js : List StoredKey) → rest ≡ done js → longer ≡ done (js ++ k ∷ []))
      → add_key first longer ≡ done (ks ++ k ∷ [])
  add_key-append none rest longer ks k h more = absurd (ground arith)
  add_key-append (some j) stuck longer ks k h more = absurd (ground arith)
  add_key-append (some j) malformed longer ks k h more = absurd (ground arith)
  add_key-append (some j) (done js) longer ks k h more =
      let found : j ∷ js ≡ ks = ground arith in
      rw (more js refl) (ap (λ (l : List StoredKey). done (l ++ k ∷ [])) found)

  parse_keys-append :
      (ps : List (List ℕ)) (ks : List StoredKey) (k : StoredKey)
      → parse_keys c ps ≡ done ks
      → parse_keys c (ps ++ c.stringify (to_json k) ∷ []) ≡ done (ks ++ k ∷ [])
  unfolding parse_keys
  parse_keys-append [] ks k e =
      rw (c.parse-stringify k, key_of_json-to_json k)
        (let nothing : [] ≡ ks = ground arith in
          ap (λ (l : List StoredKey). done (l ++ k ∷ [])) nothing)
  parse_keys-append (p ∷ ps) ks k e =
      add_key-append (key_of_json (c.parse p)) (parse_keys c ps)
        (parse_keys c (ps ++ c.stringify (to_json k) ∷ [])) ks k e
        (λ js r. parse_keys-append ps js k r)

  -- Of a binary of credentials, with room under 2 ^ 64 bytes: getPassword and findCredentials answer
  -- from one vault, findCredentials each account once, and behind setPassword from that vault with the
  -- password set.
  pub set_password-Serves :
      (binary : List ℕ) (ks : List StoredKey) (k : StoredKey)
      → read_stored_keys c binary ≡ done ks
      → length binary + length (c.stringify (to_json k)) < 2 ^ 64
      → (v : Vault) × Serves c binary v
        × Serves c
            (set_password c binary k.service k.account k.password)
            (store v k.service k.account k.password)
  unfolding set_password read_stored_keys
  set_password-Serves binary ks k e small =
      let payload : List ℕ = c.stringify (to_json k) in
      let (ps, before, after) =
        read_records-append_record binary payload small
          (let f : 0 < length payload = c.stringify_filled k in omega arith) in
      let keys : parse_keys c ps ≡ done ks = ap (parse_read c) (sym before) ∙ e in
      let longer : read_stored_keys c (append_record binary payload) ≡ done (ks ++ k ∷ []) =
        ap (parse_read c) after ∙ parse_keys-append ps ks k keys in
      (
        vault_of ks,
        Serves-vault_of binary ks e,
        subst (Serves c (append_record binary payload))
            (fun_ext (λ s. fun_ext (λ a. vault_of-append ks k s a)))
            (Serves-vault_of (append_record binary payload) (ks ++ k ∷ []) longer),
      )
