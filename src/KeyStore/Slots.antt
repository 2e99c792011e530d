-- ===== src/KeyStore/Slots.antt =====
-- src/utils/key-store.ts, collectKeySlots and findSentinelApiKeys: the api_key places of a
-- configuration. A configuration is kept as far as these functions look at it.
use model_proxy_v.Base.{
  List, [], ◌∷◌, ◌++◌, Option, none, some, Text, codes, same, keep, map, or_else,
}
use model_proxy_v.KeyStore.Match.{keychain_account}

abbrev pub store_key_in_system : Text
store_key_in_system = codes "STORE_KEY_IN_SYSTEM"

-- A field of a category: an array of strings (a model's target, base URL, key), or any other value.
pub data ModelEntry : Type 0 where
  array : List Text → ModelEntry
  scalar : ModelEntry

pub record ModelCategoryConfig : Type 0 where
  pub base_url : Option Text
  pub api_key : Option Text
  pub entries : List (Text × ModelEntry)

-- A value of `[models]`: an array, or a category.
pub data Category : Type 0 where
  aliases : Category
  category : ModelCategoryConfig → Category

pub record PassthroughTarget : Type 0 where
  pub key : Option Text
  pub base : Option Text

pub record ProxyConfig : Type 0 where
  pub models : List (Text × Category)
  pub passthrough : List (Text × PassthroughTarget)

-- A slot stands for one place of the configuration; `value` is what its `get` reads and its `set`
-- writes.
pub record KeySlot : Type 0 where
  pub location : Text
  pub account : Text
  pub value : Text

-- `a || b` on strings
abbrev pub or_text : Text → Text → Text
or_text [] d = d
or_text (c ∷ s) d = c ∷ s

abbrev pub category_slot : Text → Text → Option Text → List KeySlot
category_slot name base_url none = []
category_slot name base_url (some api_key) =
    record {
      location = codes "models." ++ name ++ codes ".api_key";
      account = keychain_account name base_url;
      value = api_key;
    }
    ∷ []

-- `entry.length < 3` and a key that is not there are passed over.
unfoldable pub entry_slot : Text → Text → Text → ModelEntry → List KeySlot
entry_slot name category_base_url model_name (array (target ∷ base_url ∷ api_key ∷ rest)) =
    record {
      location = codes "models." ++ name ++ codes "." ++ model_name ++ codes "[2]";
      account = keychain_account target (or_text base_url category_base_url);
      value = api_key;
    }
    ∷ []
entry_slot name category_base_url model_name _ = []

unfoldable pub entry_slots : Text → Text → List (Text × ModelEntry) → List KeySlot
unfolding entry_slot
entry_slots name category_base_url [] = []
entry_slots name category_base_url ((model_name, entry) ∷ entries) =
    entry_slot name category_base_url model_name entry ++ entry_slots name category_base_url entries

unfoldable pub model_slots : List (Text × Category) → List KeySlot
unfolding entry_slots
model_slots [] = []
model_slots ((name, aliases) ∷ models) = model_slots models
model_slots ((name, category c) ∷ models) =
    let base_url = or_else (c.base_url) [] in
    category_slot name base_url (c.api_key)
    ++ (entry_slots name base_url (c.entries) ++ model_slots models)

unfoldable pub passthrough_slot : Text → PassthroughTarget → Option Text → List KeySlot
passthrough_slot name target none = []
passthrough_slot name target (some key) =
    record {
      location = codes "passthrough." ++ name ++ codes ".key";
      account = keychain_account (codes "passthrough." ++ name) (or_else (target.base) []);
      value = key;
    }
    ∷ []

unfoldable pub passthrough_slots : List (Text × PassthroughTarget) → List KeySlot
unfolding passthrough_slot
passthrough_slots [] = []
passthrough_slots ((name, target) ∷ targets) =
    passthrough_slot name target (target.key) ++ passthrough_slots targets

unfoldable pub collect_key_slots : ProxyConfig → List KeySlot
unfolding model_slots passthrough_slots
collect_key_slots config = model_slots (config.models) ++ passthrough_slots (config.passthrough)

unfoldable pub find_sentinel_api_keys : ProxyConfig → List Text
unfolding collect_key_slots
find_sentinel_api_keys config =
    map (λ slot. slot.location)
      (keep (λ slot. same (slot.value) store_key_in_system) (collect_key_slots config))
