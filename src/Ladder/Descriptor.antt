-- ===== src/Ladder/Descriptor.antt =====
-- From the body of an auth answer to validated descriptors. `JSON.parse` and `new URL` belong to the
-- platform: `parse` and `is_url` say which texts they accept.
pub mod Options
pub mod Laws
mod Tests
use model_proxy_v.Base.{
  String, ℕ, Bool, true, false, not, ◌&&◌, List, [], ◌∷◌, map, Option, none, some, Text, codes,
  includes, all, is_some, if◌then◌else◌,
}
use model_proxy_v.Values.{
  Number, whole, Json, null, num, str, arr, obj, Fields, items, prop, is_finite, is_integer,
  is_positive, is_negative, is_filled, nonblank_text, as_number, as_items,
}

-- UPSTREAM_MODES (src/utils/upstream-modes.ts)
abbrev pub upstream_modes : List Text
upstream_modes = map codes (
    "openai-completions" ∷ "anthropic-messages" ∷ "openai-responses" ∷ "gemini-generatecontent"
    ∷ "gemini-interactions" ∷ [])

-- RemoteTargetDescriptor. A descriptor is made of validated fields only, so that `retry`, a
-- non-negative integer there, is a number here.
pub record Descriptor : Type 0 where
  pub target : Text
  pub base : Text
  pub mode : Option Text
  pub key : Option Text
  pub otac : Option Text
  pub transforms : Option Text
  pub timeout : Option Number
  pub retry_on : Option (List Number)
  pub retry : Option ℕ

-- The reasons for which an entry is dropped, without their wording.
pub data Reason : Type 0 where
  no_target no_base bad_url unknown_mode bad_timeout bad_retry_on bad_retry : Reason
  not_text : Text → Reason

abbrev is_object : Json → Option Fields
is_object (obj fs) = some fs
is_object _ = none

-- `arr.filter(item => …)`, which keeps the objects
unfoldable pub objects : List Json → List Fields
objects [] = []
objects (v ∷ vs) = elim (is_object v) [ none ↦ objects vs | some fs ↦ fs ∷ objects vs ]

-- The array of a parsed body: itself, or its field `targets`.
abbrev pub target_array : Json → List Json
target_array (arr vs) = items vs
target_array (obj fs) = elim (as_items (prop (codes "targets") fs)) [ none ↦ [] | some vs ↦ vs ]
target_array _ = []

unfoldable pub parse_auth_targets : (Text → Option Json) → Option Text → List Fields
unfolding objects
parse_auth_targets parse none = []
parse_auth_targets parse (some body) =
    if is_filled body
    then (elim (parse body) [ none ↦ [] | some v ↦ objects (target_array v) ])
    else []

unfoldable pub has_required_protocol_version : (Text → Option Json) → Option Text → Bool
has_required_protocol_version parse none = false
has_required_protocol_version parse (some body) =
    if is_filled body
    then (elim (parse body) [
      | none ↦ false
      | some v ↦ elim (is_object v) [
        | none ↦ false
        | some fs ↦ is_some (nonblank_text (prop (codes "version") fs))
      ]
    ])
    else false

-- The test of each optional field; `undefined` and `null` pass.
abbrev pub mode_passes : Option Json → Bool
mode_passes none = true
mode_passes (some null) = true
mode_passes (some (str m)) = includes m upstream_modes
mode_passes (some _) = false

abbrev pub text_passes : Option Json → Bool
text_passes none = true
text_passes (some null) = true
text_passes (some (str s)) = true
text_passes (some _) = false

abbrev pub timeout_passes : Option Json → Bool
timeout_passes none = true
timeout_passes (some null) = true
timeout_passes (some (num n)) = is_finite n && is_positive n
timeout_passes (some _) = false

abbrev pub is_finite_integer : Json → Bool
is_finite_integer (num n) = is_finite n && is_integer n
is_finite_integer _ = false

abbrev pub retry_on_passes : Option Json → Bool
retry_on_passes none = true
retry_on_passes (some null) = true
retry_on_passes (some (arr vs)) = all is_finite_integer (items vs)
retry_on_passes (some _) = false

abbrev pub retry_passes : Option Json → Bool
retry_passes none = true
retry_passes (some null) = true
retry_passes (some (num n)) = is_finite n && (is_integer n && not (is_negative n))
retry_passes (some _) = false

-- `entry.<name>`
abbrev pub at : String → Fields → Option Json
at name e = prop (codes name) e

-- The checks of the fields other than `target` and `base`, in their order.
unfoldable pub validate_options : Fields → Option Reason
validate_options e =
    if not (mode_passes (at "mode" e))
    then some unknown_mode
    else if not (text_passes (at "key" e))
    then some (not_text (codes "key"))
    else if not (text_passes (at "otac" e))
    then some (not_text (codes "otac"))
    else if not (text_passes (at "transforms" e))
    then some (not_text (codes "transforms"))
    else if not (timeout_passes (at "timeout" e))
    then some bad_timeout
    else if not (retry_on_passes (at "retry_on" e))
    then some bad_retry_on
    else if not (retry_passes (at "retry" e))
    then some bad_retry
    else none

module _ (is_url : Text → Bool) where
  -- `validateEntry`
  unfoldable pub validate_entry : Fields → Option Reason
  validate_entry e = elim (nonblank_text (at "target" e)) [
    | none ↦ some no_target
    | some target ↦ elim (nonblank_text (at "base" e)) [
      | none ↦ some no_base
      | some base ↦ if is_url base then validate_options e else some bad_url
    ]
  ]

-- `entry.x as string`
abbrev pub text_of : Option Json → Text
text_of (some (str s)) = s
text_of _ = []

abbrev pub numbers_of : List Json → List Number
numbers_of [] = []
numbers_of (num n ∷ vs) = n ∷ numbers_of vs
numbers_of (v ∷ vs) = numbers_of vs

abbrev pub count_of : Option Number → Option ℕ
count_of (some (whole n)) = some n
count_of _ = none

-- The descriptor of an entry that has passed.
unfoldable pub to_descriptor : Fields → Descriptor
to_descriptor e = record {
  target = text_of (at "target" e);
  base = text_of (at "base" e);
  mode = nonblank_text (at "mode" e);
  key = nonblank_text (at "key" e);
  otac = nonblank_text (at "otac" e);
  transforms = nonblank_text (at "transforms" e);
  timeout = as_number (at "timeout" e);
  retry_on = elim (as_items (at "retry_on" e)) [ none ↦ none | some vs ↦ some (numbers_of vs) ];
  retry = count_of (as_number (at "retry" e));
}

pub record Validated : Type 0 where
  pub valid : List Descriptor
  pub dropped : List (Fields × Reason)

module _ (is_url : Text → Bool) where
  -- `validateDescriptorEntries`
  unfoldable pub validate_descriptor_entries : List Fields → Validated
  validate_descriptor_entries [] = record { valid = []; dropped = [] }
  validate_descriptor_entries (e ∷ es) =
      let rest = validate_descriptor_entries es in
      elim (validate_entry is_url e) [
        | some reason ↦ record rest { dropped = (e, reason) ∷ rest.dropped }
        | none ↦ record rest { valid = to_descriptor e ∷ rest.valid }
      ]
