-- ===== src/Routing/Host/Allowed.antt =====
-- When a host is allowed.
use model_proxy_v.Base.{
  ◌≡◌, ◌↔◌, refl, sym, ap, subst, ◌⊎◌, inl, inr, true, ◌||◌, Bool-cases, List, [], ◌∷◌, ◌++◌,
  Option, Text, codes, same, same→eq, eq→same, In, any, starts_with, ends_with, starts_with_split,
  ends_with_split, starts_with-append, ends_with-append, to_lower_case, drop, arith,
}
use model_proxy_v.Routing.Host.{allows, allowed_list, is_host_allowed}

-- An entry names the host, or is `*.d` where the host is `d` or a name below `d`.
abbrev pub IsAllowedBy : Text → Text → Type 0
IsAllowedBy host entry =
    (entry ≡ host)
    ⊎ ((d : Text) × (entry ≡ codes "*." ++ d)
        × ((host ≡ d) ⊎ ((p : Text) × (host ≡ p ++ (b'.' ∷ d)))))

below_sound :
    (host d : Text)
    → (same host d || ends_with (b'.' ∷ d) host) ≡ true
    → (host ≡ d) ⊎ ((p : Text) × (host ≡ p ++ (b'.' ∷ d)))
below_sound host d h = elim (Bool-cases (same host d)) [
  | inl e ↦ inl (same→eq host d e)
  | inr e ↦ inr (ends_with_split (b'.' ∷ d) host (rw e at h))
]

below_complete :
    (host d : Text)
    → (host ≡ d) ⊎ ((p : Text) × (host ≡ p ++ (b'.' ∷ d)))
    → (same host d || ends_with (b'.' ∷ d) host) ≡ true
below_complete host d (inl e) = rw (eq→same host d e)
below_complete host d (inr (p, e)) =
    let last : ends_with (b'.' ∷ d) host ≡ true =
      subst (λ h. ends_with (b'.' ∷ d) h ≡ true) (sym e) (ends_with-append p (b'.' ∷ d)) in
    ground arith

allows_sound : (host entry : Text) → allows host entry ≡ true → IsAllowedBy host entry
unfolding allows
allows_sound host entry h = elim (Bool-cases (same entry host)) [
  | inl e ↦ inl (same→eq entry host e)
  | inr e ↦ elim (Bool-cases (starts_with (codes "*.") entry)) [
    | inr n ↦ cc (rw (e, n) at h)
    | inl w ↦
        let (d, split) = starts_with_split (codes "*.") entry w in
        let rest : drop 2 entry ≡ d = ap (drop 2) split in
        inr (d, split, below_sound host d (rw (e, w, rest) at h))
  ]
]

allows_complete : (host entry : Text) → IsAllowedBy host entry → allows host entry ≡ true
unfolding allows
allows_complete host entry (inl e) = rw (eq→same entry host e)
allows_complete host entry (inr (d, e, b)) =
    let wild : starts_with (codes "*.") entry ≡ true =
      subst (λ t. starts_with (codes "*.") t ≡ true) (sym e) (starts_with-append (codes "*.") d) in
    let rest : drop 2 entry ≡ d = ap (drop 2) e in
    elim (Bool-cases (same entry host)) [
      | inl s ↦ rw s
      | inr s ↦ rw (s, wild, rest) (below_complete host d b)
    ]

any_sound :
    (host : Text) (es : List Text)
    → any (allows host) es ≡ true
    → (e : Text) × In e es × IsAllowedBy host e
any_sound host [] h = cc
any_sound host (e ∷ es) h = elim (Bool-cases (allows host e)) [
  | inl t ↦ (e, inl refl, allows_sound host e t)
  | inr f ↦ let (a, i, p) = any_sound host es (rw f at h) in (a, inr i, p)
]

any_complete :
    (host : Text) (es : List Text) (e : Text)
    → In e es
    → IsAllowedBy host e
    → any (allows host) es ≡ true
any_complete host [] e i p = absurd i
any_complete host (x ∷ es) e (inl q) p = rw (allows_complete host x (subst (IsAllowedBy host) q p))
any_complete host (x ∷ es) e (inr i) p = ground (arith, any_complete host es e i p)

-- A host is allowed exactly when some entry of the list names it, or is `*.d` with the host equal
-- to `d` or ending in `.d`: a wildcard matches at a dot only. Hosts are compared in lower case.
pub is_host_allowed_iff :
    (host : Text) (env : Option Text)
    → (is_host_allowed host env ≡ true)
      ↔ ((e : Text) × In e (allowed_list env) × IsAllowedBy (to_lower_case host) e)
unfolding is_host_allowed
is_host_allowed_iff host env = (
  any_sound (to_lower_case host) (allowed_list env),
  λ (e, i, p). any_complete (to_lower_case host) (allowed_list env) e i p,
)
