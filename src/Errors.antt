-- ===== src/Errors.antt =====
-- src/utils/errors.ts: the error values of the proxy, the classes of transport failures, and the errors
-- made from an upstream's answer.
pub mod Laws
mod Tests
use model_proxy_v.Base.{
  String, ℕ, zero, suc, ◌+◌, ◌/◌, ◌%◌, Bool, false, ◌&&◌, ◌||◌, List, [], ◌∷◌, ◌++◌, map, Option,
  none, some, Text, codes, same, includes, contains, to_lower_case, or_else, ltb, ◌==◌,
  if◌then◌else◌,
}
use model_proxy_v.Values.{Json, str, member, is_nonblank, is_filled}

-- ClaudeProxyError
pub record ProxyError : Type 0 where
  pub message : Text
  pub status : ℕ
  pub type : Text

abbrev pub validation_error : Text → ProxyError
validation_error m = record { message = m; status = 400; type = codes "invalid_request_error" }

abbrev pub authentication_error : Text → ProxyError
authentication_error m = record { message = m; status = 401; type = codes "authentication_error" }

abbrev pub permission_error : Text → ProxyError
permission_error m = record { message = m; status = 403; type = codes "permission_error" }

abbrev pub rate_limit_error : Text → ProxyError
rate_limit_error m = record { message = m; status = 429; type = codes "rate_limit_error" }

abbrev pub processing_error : Text → ProxyError
processing_error m = record { message = m; status = 500; type = codes "processing_error" }

abbrev pub over_limit_error : Text → ProxyError
over_limit_error m = record { message = m; status = 429; type = codes "over_limit_error" }

-- The properties of a plain `Error` that the classification reads.
pub record PlainError : Type 0 where
  pub name : Text
  pub message : Text
  pub code : Option Text
  pub cause_code : Option Text
  pub cause_name : Option Text

-- What a `catch` receives.
pub data Thrown : Type 0 where
  proxy : ProxyError → Thrown
  plain : PlainError → Thrown

abbrev pub dns_codes : List Text
dns_codes = map codes ("ENOTFOUND" ∷ "EAI_AGAIN" ∷ "EAI_NODATA" ∷ "EAI_NONAME" ∷ [])

abbrev pub connection_codes : List Text
connection_codes = map codes (
    "ECONNREFUSED" ∷ "ECONNRESET" ∷ "EPIPE" ∷ "ETIMEDOUT" ∷ "ERR_CONNECTION_REFUSED"
    ∷ "ERR_TLS_CERT_ALTNAME_INVALID" ∷ "UNABLE_TO_VERIFY_LEAF_SIGNATURE" ∷ "CERT_HAS_EXPIRED"
    ∷ "EPROTO" ∷ "EHOSTUNREACH" ∷ "ENETUNREACH" ∷ [])

abbrev pub url_codes : List Text
url_codes = codes "ERR_INVALID_URL" ∷ []

-- `o === text`, where `o` may be undefined
abbrev pub is_text : Option Text → String → Bool
is_text none t = false
is_text (some s) t = same s (codes t)

-- `isAbort`
unfoldable pub is_abort : PlainError → Bool
is_abort e =
    same e.name (codes "AbortError")
    || same e.name (codes "TimeoutError")
    || is_text e.code "UND_ERR_ABORTED"
    || is_text e.code "23"
    || is_text e.cause_name "TimeoutError"
    || is_text e.cause_name "AbortError"
    || contains (codes "abort") (to_lower_case e.message)

abbrev pub has_code : List Text → Option Text → Bool
has_code set none = false
has_code set (some c) = includes c set

abbrev pub timed_out : ProxyError
timed_out = record {
  message = codes "Upstream request timed out";
  status = 504;
  type = codes "upstream_timeout";
}

abbrev pub invalid_url : ProxyError
invalid_url = record {
  message = codes "Upstream URL is invalid";
  status = 502;
  type = codes "upstream_unreachable";
}

abbrev pub unreachable : ProxyError
unreachable = record {
  message = codes "Upstream service unreachable";
  status = 502;
  type = codes "upstream_unreachable";
}

-- A code that stands for a network failure.
abbrev pub is_network_code : Option Text → Bool
is_network_code c = has_code dns_codes c || has_code connection_codes c

unfoldable pub classify_plain : PlainError → Option ProxyError
classify_plain e =
    if is_abort e
    then some timed_out
    else if has_code url_codes e.code || has_code url_codes e.cause_code
    then some invalid_url
    else if is_network_code e.code || is_network_code e.cause_code
    then some unreachable
    else if same e.name (codes "TypeError")
        && contains (codes "fetch failed") (to_lower_case e.message)
    then some unreachable
    else none

-- `classifyTransportError`
unfoldable pub classify_transport_error : Thrown → Option ProxyError
classify_transport_error (proxy e) = none
classify_transport_error (plain e) = classify_plain e

-- The response of `createErrorResponse`; its body has the top-level type "error".
pub record ErrorResponse : Type 0 where
  pub status : ℕ
  pub type : Text
  pub message : Text
  pub request_id : Option Text

-- `if (requestId)`
abbrev pub truthy : Option Text → Option Text
truthy none = none
truthy (some s) = if is_filled s then some s else none

unfoldable pub create_error_response : Thrown → Option Text → Option ℕ → ErrorResponse
create_error_response (proxy e) id custom = record {
  status = e.status;
  type = e.type;
  message = e.message;
  request_id = truthy id;
}
create_error_response (plain e) id (some status) = record {
  status = status;
  type = codes "error";
  message = e.message;
  request_id = truthy id;
}
create_error_response (plain e) id none = elim (classify_transport_error (plain e)) [
  | some c ↦ record {
    status = c.status;
    type = c.type;
    message = c.message;
    request_id = truthy id;
  }
  | none ↦ record {
    status = 500;
    type = codes "error";
    message = e.message;
    request_id = truthy id;
  }
]

abbrev pub nonblank : Option Json → Option Text
nonblank (some (str s)) = if is_nonblank s then some s else none
nonblank _ = none

abbrev pub first_some : Option Text → Option Text → Option Text
first_some none b = b
first_some (some a) b = some a

-- `extractUpstreamMessage` on a body that `JSON.parse` (`parse`) reads or refuses. A value that is
-- no object has neither field.
unfoldable pub extract_upstream_message : (Text → Option Json) → Option Text → Option Text
extract_upstream_message parse none = none
extract_upstream_message parse (some body) =
    if is_filled body
    then (elim (parse body) [
      | none ↦ none
      | some v ↦
          first_some
            (elim (member (codes "error") v) [
              | none ↦ none
              | some e ↦ nonblank (member (codes "message") e)
            ])
            (nonblank (member (codes "message") v))
    ])
    else none

-- `${n}`, with a digit of fuel for each unit of `n`
abbrev pub decimal_from : ℕ → ℕ → Text → Text
decimal_from zero n acc = acc
decimal_from (suc fuel) n acc =
    let acc' = (48 + n % 10) ∷ acc in
    let rest = decimal_from fuel (n / 10) acc' in if ltb n 10 then acc' else rest

unfoldable pub decimal : ℕ → Text
decimal n = decimal_from (suc n) n []

-- The class of error that an upstream status stands for.
unfoldable pub error_type_of : ℕ → Text
error_type_of status =
    if status == 400
    then codes "invalid_request_error"
    else if status == 401
    then codes "authentication_error"
    else if status == 403
    then codes "permission_error"
    else if status == 429
    then codes "rate_limit_error"
    else if status == 413
    then codes "over_limit_error"
    else codes "processing_error"

unfoldable pub error_message_of : ℕ → Text → Option Text → Text
error_message_of status name upstream =
    if status == 400
    then or_else upstream (codes "Invalid request to " ++ name)
    else if status == 401
    then (elim upstream [
      | some m ↦ codes "Upstream (" ++ (name ++ (codes ") rejected the API key: " ++ m))
      | none ↦
          codes "Upstream ("
          ++ (name
              ++ codes
                  ") rejected the API key (HTTP 401) — check the configured api_key for this route.")
    ])
    else if status == 403
    then or_else upstream (codes "Insufficient permissions for " ++ name)
    else if status == 429
    then or_else upstream (codes "Rate limit exceeded for " ++ name)
    else if status == 413
    then or_else upstream (codes "Request exceeds limits for " ++ name)
    else if (status == 500 || status == 502) || (status == 503 || status == 504)
    then or_else upstream (codes "Service error from " ++ name)
    else or_else upstream
        (codes "Target API (" ++ (name ++ (codes ") returned error: " ++ decimal status)))

-- `handleTargetApiError` always throws: the error that it throws. `parse` is `JSON.parse`.
unfoldable pub handle_target_api_error : (Text → Option Json) → ℕ → Text → Option Text → ProxyError
unfolding error_type_of error_message_of
handle_target_api_error parse status name body = record {
  message = error_message_of status name (extract_upstream_message parse body);
  status = status;
  type = error_type_of status;
}
