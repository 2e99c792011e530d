-- ===== src/Converters/Schema.antt =====
-- src/converters/claude-to-openai.ts, recursivelyCleanSchema. An object's fields are in the order of
-- its keys. A key `__proto__`, which an assignment of the language does not add, is left aside.
pub mod Clean
use model_proxy_v.Base.{
  Bool, false, not, ◌&&◌, ◌||◌, List, [], ◌∷◌, Option, none, some, Text, codes, same, includes,
  if◌then◌else◌,
}
use model_proxy_v.Values.{
  Json, null, bool, num, str, arr, obj, Items, nil, cons, Fields, end, field, prop, delete_prop,
}
use model_proxy_v.Converters.{is_truthy}

abbrev pub is_dropped : Text → Bool
is_dropped key = same key (codes "$schema") || same key (codes "additionalProperties")

abbrev pub supported_formats : List Text
supported_formats = codes "date-time" ∷ codes "enum" ∷ []

-- `newSchema.format && !supportedFormats.includes(newSchema.format)`
abbrev pub is_unsupported : Option Json → Bool
is_unsupported none = false
is_unsupported (some (str s)) = is_truthy (str s) && not (includes s supported_formats)
is_unsupported (some v) = is_truthy v

-- `newSchema.type === 'string'`
abbrev pub is_string_type : Option Json → Bool
is_string_type (some (str s)) = same s (codes "string")
is_string_type _ = false

unfoldable pub drop_format : Fields → Fields
drop_format fs =
    if is_string_type (prop (codes "type") fs) && is_unsupported (prop (codes "format") fs)
    then delete_prop (codes "format") fs
    else fs

-- The copy of one key.
abbrev pub keep_field : Text → Json → Fields → Fields
keep_field key v fs = if is_dropped key then fs else field key v fs

unfoldable mutual
  unfolding drop_format

  pub recursively_clean_schema : Json → Json
  recursively_clean_schema null = null
  recursively_clean_schema (bool b) = bool b
  recursively_clean_schema (num n) = num n
  recursively_clean_schema (str s) = str s
  recursively_clean_schema (arr vs) = arr (clean_items vs)
  recursively_clean_schema (obj fs) = obj (drop_format (clean_fields fs))

  pub clean_items : Items → Items
  clean_items nil = nil
  clean_items (cons v vs) = cons (recursively_clean_schema v) (clean_items vs)

  -- The loop over the keys.
  pub clean_fields : Fields → Fields
  clean_fields end = end
  clean_fields (field key v fs) = keep_field key (recursively_clean_schema v) (clean_fields fs)
