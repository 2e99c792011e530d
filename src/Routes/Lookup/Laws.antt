-- ===== src/Routes/Lookup/Laws.antt =====
-- What a wildcard key matches.
use model_proxy_v.Base.{
  ◌-◌, true, ◌&&◌, &&_parts, ◌++◌, Text, codes, starts_with, ends_with, starts_with-append,
  starts_with_split, ends_with-append, ends_with_split, length, length-append, take, ◌≡◌, ◌↔◌, ap,
  ◌∙◌, subst, arith,
}
use model_proxy_v.Base.Bytes.{take-append}
use model_proxy_v.Routes.Models.{RouteEntry}
use model_proxy_v.Routes.Lookup.{strip_star, is_list, wildcard_matches}

strip_star-append : (p : Text) → strip_star (p ++ codes "-*") ≡ p
strip_star-append p =
    let two : length (p ++ codes "-*") - 2 ≡ length p =
      omega (arith, length-append p (codes "-*")) in
    ap (λ k. take k (p ++ codes "-*")) two ∙ take-append p (codes "-*")

-- A key matches a name exactly when it is some prefix of the name with `-*` behind it, and its value is
-- an array that is not empty: the hyphen need not stand in the name.
pub wildcard_matches_iff :
    (name key : Text) (value : RouteEntry)
    → (wildcard_matches name key value ≡ true) ↔ (
        (p : Text) × (rest : Text) × (key ≡ p ++ codes "-*")
        × (name ≡ p ++ rest)
        × (is_list value ≡ true))
unfolding wildcard_matches
wildcard_matches_iff name key value = (
  λ h.
      let (ends, more) =
        &&_parts (ends_with (codes "-*") key) (is_list value && starts_with (strip_star key) name)
          (ground arith) in
      let (listed_value, starts) =
        &&_parts (is_list value) (starts_with (strip_star key) name) more in
      let (p, e) = ends_with_split (codes "-*") key ends in
      let stripped : strip_star key ≡ p = ap strip_star e ∙ strip_star-append p in
      let (rest, k) =
        starts_with_split p name (subst (λ s. starts_with s name ≡ true) stripped starts) in
      (p, rest, e, k, listed_value),
  λ (p, rest, e, k, l).
      rw (e, k, l, strip_star-append p, ends_with-append p (codes "-*"), starts_with-append p rest),
)
