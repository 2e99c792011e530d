-- ===== src/Credentials/Tests.antt =====
-- Headers of a client that sends a bearer token.
use model_proxy_v.Base.{
  ◌≡◌, refl, true, false, ◌&&◌, List, [], ◌∷◌, Option, none, some, Text, codes, same, if◌then◌else◌,
}
use model_proxy_v.Base.Table.{get}
use model_proxy_v.Values.{is_filled}
use model_proxy_v.Credentials.{
  Headers, strip_bearer_prefix, is_azure, azure_key, normalize_open_ai_auth_headers,
  repack_bearer_credential,
}
use model_proxy_v.Credentials.Laws.{is_key_header, get-normalize_open_ai_auth_headers}

abbrev sent : Headers
sent =
    (codes "Authorization", codes "bearer  sk-1") ∷ (codes "accept", codes "application/json") ∷ []

abbrev azure : Text
azure = codes "https://eu.OpenAI.azure.com/x"

stripped : strip_bearer_prefix (codes "bearer  sk-1") ≡ codes "sk-1"
unfolding strip_bearer_prefix same model_proxy_v.Base.to_lower_case model_proxy_v.Base.trim_left
stripped = refl

folded :
    normalize_open_ai_auth_headers sent azure
    ≡ (codes "accept", codes "application/json") ∷ (codes "api-key", codes "sk-1") ∷ []
unfolding normalize_open_ai_auth_headers is_azure model_proxy_v.Base.contains
    model_proxy_v.Base.to_lower_case azure_key get strip_bearer_prefix model_proxy_v.Base.trim_left
    model_proxy_v.Base.Table.delete model_proxy_v.Base.Table.set
folded = refl

repacked :
    repack_bearer_credential sent (codes "x-api-key")
    ≡ (codes "accept", codes "application/json") ∷ (codes "x-api-key", codes "sk-1") ∷ []
unfolding repack_bearer_credential get same model_proxy_v.Base.Table.delete
    model_proxy_v.Base.Table.set strip_bearer_prefix model_proxy_v.Base.to_lower_case
    model_proxy_v.Base.trim_left
repacked = refl

get-normalize_open_ai_auth_headers_example :
    get (codes "api-key") (normalize_open_ai_auth_headers sent azure) ≡ (
      if is_azure azure && is_filled (azure_key sent)
      then (if is_key_header (codes "api-key")
          then none
          else if same (codes "api-key") (codes "api-key")
          then some (azure_key sent)
          else get (codes "api-key") sent)
      else get (codes "api-key") sent)
get-normalize_open_ai_auth_headers_example =
    get-normalize_open_ai_auth_headers sent azure (codes "api-key")
