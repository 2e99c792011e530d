-- ===== src/Routing/Host.antt =====
-- `isInternalHost`, `isHostAllowed` and `getAllowedHosts` of src/utils/routing.ts. Hosts are ASCII, as a
-- URL parser gives them; `number` is the platform's `Number` on a text, where its value is a
-- non-negative integer.
pub mod Internal
pub mod Allowed
mod Tests
use model_proxy_v.Base.{
  ℕ, Bool, true, false, ◌&&◌, ◌||◌, List, [], ◌∷◌, map, Option, none, some, Text, codes, same,
  starts_with, ends_with, trim, to_lower_case, split_on, any, keep, drop, leb, ◌==◌, if◌then◌else◌,
}
use model_proxy_v.Values.{is_filled}

-- `h.replace(/^\[/, '')`
abbrev pub strip_open : Text → Text
strip_open [] = []
strip_open (c ∷ s) = if c == b'[' then s else c ∷ s

-- `h.replace(/\]$/, '')`
abbrev pub strip_close : Text → Text
strip_close [] = []
strip_close (c ∷ []) = if c == b']' then [] else c ∷ []
strip_close (c ∷ d ∷ s) = c ∷ strip_close (d ∷ s)

-- The comparison of a part with a number; NaN and other values differ from every number here.
abbrev pub is_number : Option ℕ → ℕ → Bool
is_number none k = false
is_number (some n) k = n == k

abbrev pub is_between : Option ℕ → ℕ → ℕ → Bool
is_between none lo hi = false
is_between (some n) lo hi = leb lo n && leb n hi

-- The IPv4 ranges, on the first two of four parts.
unfoldable pub is_private : Option ℕ → Option ℕ → Bool
is_private a b =
    is_number a 127
    || is_number a 10
    || (is_number a 172 && is_between b 16 31)
    || (is_number a 192 && is_number b 168)
    || (is_number a 169 && is_number b 254)

module _ (number : Text → Option ℕ) where
  unfoldable pub is_private_ipv4 : List Text → Bool
  unfolding is_private
  is_private_ipv4 (a ∷ b ∷ c ∷ d ∷ []) = is_private (number a) (number b)
  is_private_ipv4 _ = false

-- The prefixes of unique local and link-local IPv6 addresses.
unfoldable pub has_private_prefix : Text → Bool
has_private_prefix h =
    starts_with (codes "fc") h
    || starts_with (codes "fd") h
    || starts_with (codes "fe8") h
    || starts_with (codes "fe9") h
    || starts_with (codes "fea") h
    || starts_with (codes "feb") h

-- The host as `isInternalHost` looks at it.
abbrev pub bare : Text → Text
bare host = strip_close (strip_open (to_lower_case host))

unfoldable pub is_internal_host : (Text → Option ℕ) → Text → Bool
unfolding is_private_ipv4 has_private_prefix
is_internal_host number host =
    (same (bare host) (codes "localhost") || same (bare host) (codes "::1"))
    || ends_with (codes ".local") (bare host)
    || is_private_ipv4 number (split_on b'.' (bare host))
    || same (bare host) (codes "::1")
    || has_private_prefix (bare host)

-- DEFAULT_ALLOWED_HOSTS
abbrev pub default_allowed_hosts : List Text
default_allowed_hosts = codes "127.0.0.1" ∷ codes "localhost" ∷ []

-- The list that `isHostAllowed` goes through.
unfoldable pub allowed_list : Option Text → List Text
allowed_list none = default_allowed_hosts
allowed_list (some env) =
    if is_filled env
    then keep is_filled (map (λ h. to_lower_case (trim h)) (split_on b',' env))
    else default_allowed_hosts

-- Whether one entry allows a host in lower case.
unfoldable pub allows : Text → Text → Bool
allows host allowed =
    if same allowed host
    then true
    else if starts_with (codes "*.") allowed
    then same host (drop 2 allowed) || ends_with (b'.' ∷ drop 2 allowed) host
    else false

unfoldable pub is_host_allowed : Text → Option Text → Bool
unfolding allowed_list allows
is_host_allowed host env = any (allows (to_lower_case host)) (allowed_list env)

-- `getAllowedHosts`, which keeps the case of the entries
unfoldable pub get_allowed_hosts : Option Text → List Text
get_allowed_hosts none = default_allowed_hosts
get_allowed_hosts (some env) =
    if is_filled env then keep is_filled (map trim (split_on b',' env)) else default_allowed_hosts
