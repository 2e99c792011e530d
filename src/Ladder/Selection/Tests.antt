-- ===== src/Ladder/Selection/Tests.antt =====
-- Deduplication on concrete descriptors.
use model_proxy_v.Base.{String, ◌≡◌, refl, [], ◌∷◌, Option, none, some, Text, codes, same}
use model_proxy_v.Values.{whole, fraction}
use model_proxy_v.Ladder.Descriptor.{Descriptor}
use model_proxy_v.Ladder.Selection.{key_of, dedupe_and_cap, default_max_targets}
use model_proxy_v.Ladder.Selection.Laws.{IsSelection, dedupe_and_cap-IsSelection}

abbrev descriptor : String → String → Option Text → Descriptor
descriptor target base key = record {
  target = codes target;
  base = codes base;
  mode = none;
  key = key;
  otac = none;
  transforms = none;
  timeout = none;
  retry_on = none;
  retry = none;
}

abbrev a : Descriptor
a = descriptor "m" "https://h" none

abbrev b : Descriptor
b = descriptor "m" "https://h" (some (codes "k"))

abbrev c : Descriptor
c = descriptor "m" "https://h" (some [])

rotation : dedupe_and_cap default_max_targets (a ∷ b ∷ c ∷ []) ≡ a ∷ b ∷ []
unfolding dedupe_and_cap key_of same
rotation = refl

-- A cap below one leaves no rung.
half_cap : dedupe_and_cap (fraction 0) (a ∷ b ∷ []) ≡ []
unfolding dedupe_and_cap key_of same
half_cap = refl

dedupe_and_cap-IsSelection_example :
    IsSelection 2 (a ∷ b ∷ c ∷ []) (dedupe_and_cap (whole 2) (a ∷ b ∷ c ∷ []))
dedupe_and_cap-IsSelection_example = dedupe_and_cap-IsSelection (whole 2) (a ∷ b ∷ c ∷ []) refl refl
