-- ===== src/BodyStore/Tests.antt =====
-- Runs of the record store and of the key store at concrete inputs.
use model_proxy_v.Base.{
  ℕ, true, false, List, [], ◌∷◌, ◌++◌, Option, none, some, codes, same, length, take, drop, ◌≡◌,
  refl, ap, ◌∙◌, arith,
}
use model_proxy_v.Base.Bytes.{take-append, drop-append}
use model_proxy_v.Values.{Json, prop}
use model_proxy_v.BodyStore.Crc.{crc32_buf}
use model_proxy_v.BodyStore.Tail.{serialize_tail, deserialize_tail}
use model_proxy_v.BodyStore.Records.{
  read_records, append_record, walk_records, on_tail, take_record,
}
use model_proxy_v.BodyStore.Records.Chain.{read_records-append_record}
use model_proxy_v.BodyStore.Keys.{
  StoredKey, Codec, to_json, key_of_json, read_stored_keys, set_password, get_password, done,
  find_password,
}
use model_proxy_v.BodyStore.Keys.Vault.{
  key_of_json-to_json, Vault, store, Serves, set_password-Serves,
}
use model_proxy_v.BodyStore.Swap.{Disk, Faults, append_to_disk}

-- The check value of CRC-32.
crc32_check : crc32_buf (codes "123456789") ≡ 0xcbf43926
unfolding crc32_buf
crc32_check = refl

abbrev program : List ℕ
program = codes "MZ"

two_records :
    read_records (append_record (append_record program (codes "one")) (codes "two"))
    ≡ some (codes "one" ∷ codes "two" ∷ [])
unfolding read_records walk_records on_tail take_record append_record deserialize_tail
    serialize_tail crc32_buf same
two_records = refl

-- An empty record of an empty file is not found again: its tail stands at offset 0.
empty_record : read_records (append_record [] []) ≡ some []
unfolding read_records walk_records on_tail take_record append_record deserialize_tail
    serialize_tail crc32_buf same
empty_record = refl

read_records-append_record_example :
    (ps : List (List ℕ)) × (read_records program ≡ some ps)
    × (read_records (append_record program (codes "one")) ≡ some (ps ++ codes "one" ∷ []))
read_records-append_record_example =
    read_records-append_record program (codes "one") (omega arith) (omega arith)

-- A codec that writes the lengths of two texts in front of the three.
abbrev pack : Option StoredKey → List ℕ
pack none = 0 ∷ []
pack (some k) = length k.service ∷ length k.account ∷ k.service ++ (k.account ++ k.password)

abbrev unpack : List ℕ → Option Json
unpack (m ∷ n ∷ rest) = some (
    to_json (record {
      service = take m rest;
      account = take n (drop m rest);
      password = drop n (drop m rest);
    }))
unpack _ = none

unpack-pack :
    (s a p : List ℕ)
    → unpack (pack (some (record { service = s; account = a; password = p })))
      ≡ some (to_json (record { service = s; account = a; password = p }))
unpack-pack s a p =
    rw (take-append s (a ++ p), drop-append s (a ++ p), take-append a p, drop-append a p)

abbrev packing : Codec
packing = record {
  stringify = λ j. pack (key_of_json (some j));
  parse = unpack;
  parse-stringify = λ k.
      ap (λ (o : Option StoredKey). unpack (pack o)) (key_of_json-to_json k)
      ∙ unpack-pack k.service k.account k.password;
  stringify_filled = λ k. rw (key_of_json-to_json k) (omega arith);
}

abbrev a_key : StoredKey
a_key = record { service = codes "proxy"; account = codes "openai"; password = codes "sk-1" }

key_read :
    get_password packing
      (set_password packing program (codes "proxy") (codes "openai") (codes "sk-1"))
      (codes "proxy")
      (codes "openai")
    ≡ done (some (codes "sk-1"))
unfolding get_password set_password read_stored_keys read_records append_record key_of_json prop
    same serialize_tail walk_records on_tail deserialize_tail crc32_buf take_record
    model_proxy_v.BodyStore.Keys.parse_keys find_password
key_read = refl

no_keys : read_stored_keys packing program ≡ done []
unfolding read_stored_keys read_records model_proxy_v.BodyStore.Keys.parse_keys
no_keys = refl

set_password-Serves_example :
    (v : Vault) × Serves packing program v
    × Serves packing
        (set_password packing program a_key.service a_key.account a_key.password)
        (store v a_key.service a_key.account a_key.password)
unfolding key_of_json prop same
set_password-Serves_example = set_password-Serves packing program [] a_key no_keys (omega arith)

abbrev a_disk : Disk
a_disk = record { file = some program; tmp = none; old = none }

-- The second rename and the one back fail.
abbrev two_faults : Faults
two_faults = record {
  open_in_place_fails = true;
  copy_fails = none;
  stat_fails = false;
  open_copy_fails = false;
  write_fails = none;
  close_fails = false;
  chmod_fails = false;
  rename_fails = false;
  swap_fails = true;
  restore_fails = true;
  unlink_old_fails = false;
  unlink_tmp_fails = false;
}

aside :
    append_to_disk true (codes "one") two_faults a_disk
    ≡ (record { file = none; tmp = none; old = some program }, false)
unfolding append_to_disk model_proxy_v.BodyStore.Swap.append_in_place
    model_proxy_v.BodyStore.Swap.append_via_temp_file model_proxy_v.BodyStore.Swap.clean_up
    model_proxy_v.BodyStore.Swap.fill_copy model_proxy_v.BodyStore.Swap.replace_original
aside = refl
