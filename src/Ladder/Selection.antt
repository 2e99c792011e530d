-- ===== src/Ladder/Selection.antt =====
-- `dedupeAndCap`: duplicate descriptors dropped, then the length capped.
pub mod Laws
mod Tests
use model_proxy_v.Base.{ℕ, List, [], ◌∷◌, ◌++◌, Text, includes, or_else, take, if◌then◌else◌}
use model_proxy_v.Values.{Number, whole, fraction, is_finite, is_positive}
use model_proxy_v.Ladder.Descriptor.{Descriptor}

-- DEFAULT_MAX_TARGETS
abbrev pub default_max_targets : Number
default_max_targets = whole 16

-- `${target}@${base}@${key ?? ''}`
unfoldable pub key_of : Descriptor → Text
key_of d = d.target ++ (b'@' ∷ (d.base ++ (b'@' ∷ or_else d.key [])))

-- The loop, with the keys seen so far.
unfoldable pub dedupe_from : List Text → List Descriptor → List Descriptor
dedupe_from seen [] = []
dedupe_from seen (d ∷ ds) =
    let skip = dedupe_from seen ds in
    let add = d ∷ dedupe_from (key_of d ∷ seen) ds in if includes (key_of d) seen then skip else add

-- `Math.floor` of a finite positive number
abbrev pub floor_of : Number → ℕ
floor_of (whole n) = n
floor_of (fraction n) = n
floor_of _ = 0

unfoldable pub dedupe_and_cap : Number → List Descriptor → List Descriptor
unfolding dedupe_from
dedupe_and_cap max ds =
    let out = dedupe_from [] ds in
    if is_finite max then (if is_positive max then take (floor_of max) out else out) else out
