-- ===== src/Credentials.antt =====
-- src/utils/auth-headers.ts: credentials in the headers of a request. Headers are a table from names to
-- values; a header that is missing counts as the empty text, since both are false as conditions. URLs
-- are ASCII.
pub mod Laws
pub mod Tests
use model_proxy_v.Base.{
  Bool, not, ◌||◌, ◌&&◌, List, [], ◌∷◌, Option, none, some, Text, codes, same, contains,
  to_lower_case, is_space, trim_left, take, drop, or_else, if◌then◌else◌,
}
use model_proxy_v.Base.Table.{get, set, delete}
use model_proxy_v.Values.{is_filled}

abbrev pub Headers : Type 0
Headers = List (Text × Text)

abbrev pub header : Text → Headers → Text
header k h = or_else (get k h) []

-- `a || b` on strings
abbrev pub first_filled : Text → Text → Text
first_filled a b = if is_filled a then a else b

-- The white space behind `Bearer`, and what follows; without white space nothing is taken away.
abbrev pub behind_scheme : Text → Text → Text
behind_scheme value [] = value
behind_scheme value (c ∷ rest) = if is_space c then trim_left rest else value

-- `value.replace(/^Bearer\s+/i, '')`
unfoldable pub strip_bearer_prefix : Text → Text
strip_bearer_prefix value =
    if same (to_lower_case (take 6 value)) (codes "bearer")
    then behind_scheme value (drop 6 value)
    else value

-- `sources` in their order; a missing one is the empty text.
unfoldable pub pick_raw_api_key : List Text → Option Text
pick_raw_api_key [] = none
pick_raw_api_key (s ∷ ss) =
    if is_filled s then some (strip_bearer_prefix s) else pick_raw_api_key ss

abbrev pub authorization_of : Headers → Text
authorization_of h =
    first_filled (header (codes "Authorization") h) (header (codes "authorization") h)

-- `extractRawCredential`; the empty text stands for `undefined`.
unfoldable pub extract_raw_credential : Headers → Bool → Text
extract_raw_credential h goog_api_key_first =
    if goog_api_key_first
    then first_filled (strip_bearer_prefix (header (codes "x-goog-api-key") h))
        (strip_bearer_prefix (authorization_of h))
    else first_filled (strip_bearer_prefix (authorization_of h)) (header (codes "x-goog-api-key") h)

unfoldable pub repack_bearer_credential : Headers → Text → Headers
repack_bearer_credential h target =
    if is_filled (header (codes "Authorization") h) && not (is_filled (header target h))
    then delete (codes "Authorization")
        (set target (strip_bearer_prefix (header (codes "Authorization") h)) h)
    else h

unfoldable pub is_azure : Text → Bool
is_azure target_url =
    contains (codes ".cognitiveservices.azure.com") (to_lower_case target_url)
    || contains (codes ".openai.azure.com") (to_lower_case target_url)

unfoldable pub azure_key : Headers → Text
azure_key h =
    first_filled (header (codes "api-key") h)
      (first_filled (header (codes "x-api-key") h) (strip_bearer_prefix (authorization_of h)))

unfoldable pub normalize_open_ai_auth_headers : Headers → Text → Headers
normalize_open_ai_auth_headers h target_url =
    if not (is_azure target_url)
    then h
    else if is_filled (azure_key h)
    then delete (codes "x-api-key") (
        delete (codes "authorization")
          (delete (codes "Authorization") (set (codes "api-key") (azure_key h) h)))
    else h
