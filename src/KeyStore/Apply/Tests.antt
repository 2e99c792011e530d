-- ===== src/KeyStore/Apply/Tests.antt =====
-- Loads of a small configuration.
use model_proxy_v.Base.{
  ◌≡◌, ◌+◌, refl, true, List, [], ◌∷◌, some, none, codes, length, same, All, map,
}
use model_proxy_v.KeyStore.Slots.{
  KeySlot, store_key_in_system, array, scalar, aliases, category, ProxyConfig, collect_key_slots,
  find_sentinel_api_keys,
}
use model_proxy_v.KeyStore.Apply.{Keytar, unsupported, is_plaintext, apply_to_slots}
use model_proxy_v.KeyStore.Apply.Laws.{IsRealAnswer, count_sentinels, apply_to_slots-IsNotSentinel}
use model_proxy_v.KeyStore.Apply.Reload.{IsNotSentinel}

abbrev config : ProxyConfig
config = record {
  models =
      (
        codes "claude",
        category (record {
          base_url = some (codes "https://a.b");
          api_key = some (codes "sk-1");
          entries =
              (codes "base_url", scalar)
              ∷ (codes "opus", array (codes "glm" ∷ [] ∷ codes "sk-2" ∷ []))
              ∷ (codes "haiku", array (codes "glm-air" ∷ []))
              ∷ [];
        }),
      )
      ∷ (codes "aliases", aliases)
      ∷ [];
  passthrough = (codes "z", record { key = some store_key_in_system; base = none }) ∷ [];
}

abbrev slots : List KeySlot
slots =
    record {
      location = codes "models.claude.api_key";
      account = codes "claude/https://a.b";
      value = codes "sk-1";
    }
    ∷ record {
      location = codes "models.claude.opus[2]";
      account = codes "glm/https://a.b";
      value = codes "sk-2";
    }
    ∷ []

abbrev sentinel_slot : KeySlot
sentinel_slot = record {
  location = codes "passthrough.z.key";
  account = codes "passthrough.z/";
  value = store_key_in_system;
}

collected :
    collect_key_slots config
    ≡ record {
      location = codes "models.claude.api_key";
      account = codes "claude/https://a.b";
      value = codes "sk-1";
    }
      ∷ record {
        location = codes "models.claude.opus[2]";
        account = codes "glm/https://a.b";
        value = codes "sk-2";
      }
      ∷ sentinel_slot
      ∷ []
unfolding collect_key_slots model_proxy_v.KeyStore.Match.keychain_account
collected = refl

sentinels : find_sentinel_api_keys config ≡ codes "passthrough.z.key" ∷ []
unfolding find_sentinel_api_keys same
sentinels = refl

abbrev empty_keychain : Keytar
empty_keychain = record { get_password = λ a. none; find_credentials = unsupported }

abbrev one_key : Keytar
one_key = record { get_password = λ a. some (codes "old"); find_credentials = unsupported }

abbrev first_slot : KeySlot
first_slot = record {
  location = codes "models.claude.api_key";
  account = codes "claude/https://a.b";
  value = codes "sk-1";
}

abbrev other_slot : KeySlot
other_slot = record {
  location = codes "models.claude.sonnet[2]";
  account = codes "claude/https://a.b";
  value = codes "sk-3";
}

old-IsRealKey : IsRealAnswer (some (codes "old"))
unfolding same
old-IsRealKey = refl

is_plaintext_first : is_plaintext (first_slot.value) ≡ true
unfolding is_plaintext same
is_plaintext_first = refl

is_plaintext_other : is_plaintext (other_slot.value) ≡ true
unfolding is_plaintext same
is_plaintext_other = refl

apply_to_slots-IsNotSentinel_example :
    All IsNotSentinel ((apply_to_slots one_key none (sentinel_slot ∷ slots)).slots)
    × (map (λ s. s.location) ((apply_to_slots one_key none (sentinel_slot ∷ slots)).slots)
        ≡ map (λ s. s.location) (sentinel_slot ∷ slots))
    × ((apply_to_slots one_key none (sentinel_slot ∷ slots)).resolved_count
          + length ((apply_to_slots one_key none (sentinel_slot ∷ slots)).unresolved)
        ≡ count_sentinels (sentinel_slot ∷ slots))
apply_to_slots-IsNotSentinel_example =
    apply_to_slots-IsNotSentinel one_key (λ a. old-IsRealKey) tt none (sentinel_slot ∷ slots) tt
