-- ===== src/Routing/Host/Tests.antt =====
-- Hosts on concrete inputs.
use model_proxy_v.Base.{
  ℕ, ◌≡◌, ◌↔◌, refl, true, Option, none, some, Text, codes, same, starts_with, ends_with,
  to_lower_case, trim, split_on, In, arith, if◌then◌else◌,
}
use model_proxy_v.Routing.Host.{is_internal_host, is_host_allowed, allowed_list}
use model_proxy_v.Routing.Host.Internal.{InRange, is_internal_host_ipv4}
use model_proxy_v.Routing.Host.Allowed.{IsAllowedBy, is_host_allowed_iff}

-- `Number` on the two parts used here.
abbrev number : Text → Option ℕ
number s = if same s (codes "172") then some 172 else if same s (codes "20") then some 20 else none

private_host : is_internal_host number (codes "172.20.1.1") ≡ true
unfolding is_internal_host to_lower_case split_on same ends_with starts_with
private_host = refl

subdomain :
    is_host_allowed (codes "API.Example.com") (some (codes "localhost, *.example.com")) ≡ true
unfolding is_host_allowed to_lower_case split_on trim same starts_with ends_with
subdomain = refl

is_internal_host_ipv4_example :
    (is_internal_host number (codes "172.20.1.1") ≡ true) ↔ InRange 172 20
unfolding to_lower_case split_on same ends_with
is_internal_host_ipv4_example =
    is_internal_host_ipv4 number (codes "172.20.1.1") b'1' (codes "72.20.1.1") (codes "172")
      (codes "20") (codes "1") (codes "1") 172 20 refl (omega arith) (omega arith) refl refl refl
      refl

is_host_allowed_iff_example : (is_host_allowed (codes "a.b") (some (codes "*.b")) ≡ true) ↔ (
    (e : Text) × In e (allowed_list (some (codes "*.b")))
    × IsAllowedBy (to_lower_case (codes "a.b")) e)
is_host_allowed_iff_example = is_host_allowed_iff (codes "a.b") (some (codes "*.b"))
