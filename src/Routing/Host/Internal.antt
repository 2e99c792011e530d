-- ===== src/Routing/Host/Internal.antt =====
-- Which hosts count as internal.
use model_proxy_v.Base.{
  ℕ, ◌≡◌, ◌≤◌, ◌↔◌, sym, ap, subst, ◌∙◌, ◌⊎◌, Bool, true, false, ◌||◌, [], ◌∷◌, ◌++◌, Option, some,
  Text, codes, same, starts_with, ends_with, starts_with-append, split_on, arith,
}
use model_proxy_v.Routing.Host.{
  is_private, is_private_ipv4, has_private_prefix, bare, is_internal_host,
}

-- The ranges of the documentation, on the first two bytes of an address.
abbrev pub InRange : ℕ → ℕ → Type 0
InRange a b =
    (a ≡ 127)
    ⊎ (a ≡ 10)
    ⊎ ((a ≡ 172) × (16 ≤ b) × (b ≤ 31))
    ⊎ ((a ≡ 192) × (b ≡ 168))
    ⊎ ((a ≡ 169) × (b ≡ 254))

is_private_iff : (a b : ℕ) → (is_private (some a) (some b) ≡ true) ↔ InRange a b
unfolding is_private
is_private_iff a b = ground arith

or_last :
    (a b c d e : Bool)
    → a ≡ false
    → b ≡ false
    → d ≡ false
    → e ≡ false
    → ((a || b || c || d || e) ≡ c)
or_last a b true d e p q r s = ground arith
or_last a b false d e p q r s = ground arith

-- A text that begins with a digit has none of the prefixes and is no name that counts.
digit_first :
    (c : ℕ) (t : Text)
    → 48 ≤ c
    → c ≤ 57
    → (has_private_prefix (c ∷ t) ≡ false)
      × ((same (c ∷ t) (codes "localhost") || same (c ∷ t) (codes "::1")) ≡ false)
      × (same (c ∷ t) (codes "::1") ≡ false)
unfolding has_private_prefix starts_with same
digit_first c t h k = (ground arith, ground arith, ground arith)

-- A host of four parts that begins with a digit and does not end in `.local` is internal exactly
-- when its first two parts, as numbers, lie in 127/8, 10/8, 172.16/12, 192.168/16 or 169.254/16.
pub is_internal_host_ipv4 :
    (number : Text → Option ℕ) (host : Text) (first : ℕ) (t a b c d : Text) (x y : ℕ)
    → bare host ≡ first ∷ t
    → 48 ≤ first
    → first ≤ 57
    → ends_with (codes ".local") (bare host) ≡ false
    → split_on b'.' (bare host) ≡ a ∷ b ∷ c ∷ d ∷ []
    → number a ≡ some x
    → number b ≡ some y
    → (is_internal_host number host ≡ true) ↔ InRange x y
unfolding is_internal_host
is_internal_host_ipv4 number host first t a b c d x y starts lo hi global parts na nb =
    let (no_prefix, no_name, no_loop) = digit_first first t lo hi in
    let v4 : is_private_ipv4 number (split_on b'.' (bare host)) ≡ is_private (some x) (some y) =
      ap (is_private_ipv4 number) parts ∙ four_parts in
    let all : is_internal_host number host ≡ is_private (some x) (some y) =
      or_last _ _ _ _ _ (rw starts no_name) global (rw starts no_loop) (rw starts no_prefix) ∙ v4 in
    rw all (is_private_iff x y)
  where
    four_parts : is_private_ipv4 number (a ∷ b ∷ c ∷ d ∷ []) ≡ is_private (some x) (some y)
    four_parts = rw (na, nb)

or_true : (a b c d e : Bool) → e ≡ true → (a || b || c || d || e) ≡ true
or_true a b c d e h = ground arith

has_private_prefix_fc : (h : Text) → starts_with (codes "fc") h ≡ true → has_private_prefix h ≡ true
unfolding has_private_prefix
has_private_prefix_fc h e = rw e

-- Every host whose name begins with `fc` is internal, whatever follows: the test for unique local
-- IPv6 addresses does not ask for an address.
pub is_internal_host_fc :
    (number : Text → Option ℕ) (host t : Text)
    → bare host ≡ codes "fc" ++ t
    → is_internal_host number host ≡ true
unfolding is_internal_host
is_internal_host_fc number host t h =
    let starts : starts_with (codes "fc") (bare host) ≡ true =
      subst (λ s. starts_with (codes "fc") s ≡ true) (sym h) (starts_with-append (codes "fc") t) in
    or_true (same (bare host) (codes "localhost") || same (bare host) (codes "::1"))
      (ends_with (codes ".local") (bare host)) (is_private_ipv4 number (split_on b'.' (bare host)))
      (same (bare host) (codes "::1")) _ (has_private_prefix_fc (bare host) starts)
