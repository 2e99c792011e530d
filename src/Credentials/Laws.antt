-- ===== src/Credentials/Laws.antt =====
-- src/utils/auth-headers.ts, normalizeOpenAIAuthHeaders: every header of the result.
use model_proxy_v.Base.{
  ◌≡◌, refl, Bool, ◌||◌, ◌&&◌, none, some, Text, codes, same, if◌then◌else◌, arith, Bool-cases, inl,
  inr,
}
use model_proxy_v.Base.Table.{get, set, delete, get-set, get-delete}
use model_proxy_v.Values.{is_filled}
use model_proxy_v.Credentials.{Headers, is_azure, azure_key, normalize_open_ai_auth_headers}

-- The headers by which a client may have sent its key.
abbrev pub is_key_header : Text → Bool
is_key_header k =
    same (codes "x-api-key") k || (same (codes "authorization") k || same (codes "Authorization") k)

folded_lem :
    (h : Headers) (key k : Text)
    → get k (
        delete (codes "x-api-key") (
          delete
            (codes "authorization")
            (delete (codes "Authorization") (set (codes "api-key") key h))))
      ≡ (if is_key_header k then none else if same (codes "api-key") k then some key else get k h)
folded_lem h key k = ground (
  arith,
  get-delete (codes "x-api-key") k (
      delete (codes "authorization")
        (delete (codes "Authorization") (set (codes "api-key") key h))),
  get-delete (codes "authorization") k
      (delete (codes "Authorization") (set (codes "api-key") key h)),
  get-delete (codes "Authorization") k (set (codes "api-key") key h),
  get-set (codes "api-key") k key h,
)

-- For any headers and URL, and any header name: if the URL is one of Azure and a key is found, the
-- result has the key as `api-key`, no `x-api-key`, `authorization` or `Authorization`, and every other
-- header as before. In every other case the headers are as before.
pub get-normalize_open_ai_auth_headers :
    (h : Headers) (target_url k : Text)
    → get k (normalize_open_ai_auth_headers h target_url) ≡ (
        if is_azure target_url && is_filled (azure_key h)
        then (if is_key_header k
            then none
            else if same (codes "api-key") k
            then some (azure_key h)
            else get k h)
        else get k h)
unfolding normalize_open_ai_auth_headers
get-normalize_open_ai_auth_headers h target_url k = elim (Bool-cases (is_azure target_url)) [
  | inl e ↦ elim (Bool-cases (is_filled (azure_key h))) [
    | inl f ↦ rw (e, f) (folded_lem h (azure_key h) k)
    | inr f ↦ rw (e, f) refl
  ]
  | inr e ↦ rw e refl
]
