-- ===== src/KeyStore/Match/Laws.antt =====
-- src/utils/key-store.ts, findBestCredential: the credential that is chosen.
use model_proxy_v.Base.{
  ℕ, ◌≡◌, ◌≢◌, ◌↔◌, ◌⊎◌, ◌<◌, refl, inl, inr, true, false, ◌&&◌, ◌||◌, List, [], ◌∷◌, ◌++◌, Option,
  none, some, Text, same, starts_with, starts_with-append, starts_with_split, same→eq, ◌∙◌, sym,
  append-nil, same_refl, ◌≤◌, ◌+◌, ltb, ◌==◌, length, All, In, any, arith, Bool-cases, Option-cases,
}
use model_proxy_v.KeyStore.Match.{
  keychain_account, split_account, normalize_base_url, score_base_url_match, score_account_match,
  target_score, text_lt, Credential, Best, consider, weigh, beats, best_of, find_best_credential,
}

text_lt_trans : (r s t : Text) → text_lt r s ≡ true → text_lt s t ≡ true → text_lt r t ≡ true
unfolding text_lt
text_lt_trans r s [] h k = cc
text_lt_trans r [] (e ∷ t) h k = cc
text_lt_trans [] (d ∷ s) (e ∷ t) h k = refl
text_lt_trans (c ∷ r) (d ∷ s) (e ∷ t) h k = ground (arith, text_lt_trans r s t)

-- The candidate with this account and score does not come before the chosen one.
abbrev pub NotBefore : Text → ℕ → Text → ℕ → Type 0
NotBefore account score best_account best_score =
    (score < best_score) ⊎ ((score ≡ best_score) × (text_lt account best_account ≡ false))

-- A credential is unrelated to the wanted account, or does not come before the chosen one.
abbrev pub Loses : Text → Text → ℕ → Credential → Type 0
Loses wanted account score c =
    (score_account_match wanted (c.account) ≡ none)
    ⊎ ((s : ℕ) × (score_account_match wanted (c.account) ≡ some s)
        × NotBefore (c.account) s account score)

abbrev pub IsUnrelated : Text → Credential → Type 0
IsUnrelated wanted c = score_account_match wanted (c.account) ≡ none

-- What the loop has established of the credentials it has seen.
abbrev Seen : Text → List Credential → Option Best → Type 0
Seen wanted cs none = All (IsUnrelated wanted) cs
Seen wanted cs (some best) =
    (score_account_match wanted (best.account) ≡ some (best.score))
    × In (record { account = best.account; password = best.key }) cs
    × All (Loses wanted (best.account) (best.score)) cs

NotBefore-later :
    (x : Text) (s : ℕ) (b : Text) (t : ℕ) (n : Text) (u : ℕ)
    → NotBefore x s b t
    → (ltb t u || (u == t && text_lt n b)) ≡ true
    → NotBefore x s n u
NotBefore-later x s b t n u h k = ground (arith, text_lt_trans x n b)

Loses-later :
    (wanted b : Text) (t : ℕ) (n : Text) (u : ℕ) (cs : List Credential)
    → (ltb t u || (u == t && text_lt n b)) ≡ true
    → All (Loses wanted b t) cs
    → All (Loses wanted n u) cs
Loses-later wanted b t n u [] k h = tt
Loses-later wanted b t n u (c ∷ cs) k (inl e, h) = (inl e, Loses-later wanted b t n u cs k h)
Loses-later wanted b t n u (c ∷ cs) k (inr (s, e, before), h) =
    (inr (s, e, NotBefore-later (c.account) s b t n u before k), Loses-later wanted b t n u cs k h)

Loses-of_IsUnrelated :
    (wanted b : Text) (t : ℕ) (cs : List Credential)
    → All (IsUnrelated wanted) cs
    → All (Loses wanted b t) cs
Loses-of_IsUnrelated wanted b t [] h = tt
Loses-of_IsUnrelated wanted b t (c ∷ cs) (e, h) = (inl e, Loses-of_IsUnrelated wanted b t cs h)

text_lt_irrefl : (s : Text) → text_lt s s ≡ false
unfolding text_lt
text_lt_irrefl [] = refl
text_lt_irrefl (c ∷ s) = ground (arith, text_lt_irrefl s)

NotBefore-of_not-beats :
    (x : Text) (s : ℕ) (b : Text) (t : ℕ)
    → (ltb t s || (s == t && text_lt x b)) ≡ false
    → NotBefore x s b t
NotBefore-of_not-beats x s b t h = ground arith

-- One round, the credentials seen so far in any order.
weigh-Seen :
    (wanted : Text) (cs : List Credential) (best : Option Best) (c : Credential) (o : Option ℕ)
    → score_account_match wanted (c.account) ≡ o
    → Seen wanted cs best
    → Seen wanted (c ∷ cs) (weigh best c o)
unfolding weigh beats
weigh-Seen wanted cs none c none e h = (e, h)
weigh-Seen wanted cs none c (some s) e h = (
  e,
  inl refl,
  (
    inr (s, e, inr (refl, text_lt_irrefl (c.account))),
    Loses-of_IsUnrelated wanted (c.account) s cs h,
  ),
)
weigh-Seen wanted cs (some b) c none e (e0, here, h) = (e0, inr here, (inl e, h))
weigh-Seen wanted cs (some b) c (some s) e (e0, here, h) =
    elim (Bool-cases (ltb (b.score) s || (s == b.score && text_lt (c.account) (b.account)))) [
      | inl better ↦ rw better (
        e,
        inl refl,
        (
          inr (s, e, inr (refl, text_lt_irrefl (c.account))),
          Loses-later wanted (b.account) (b.score) (c.account) s cs better h,
        ),
      )
      | inr worse ↦ rw worse (
        e0,
        inr here,
        (inr (s, e, NotBefore-of_not-beats (c.account) s (b.account) (b.score) worse), h),
      )
    ]

-- The credentials seen by the loop, the last one first.
abbrev rev_onto : List Credential → List Credential → List Credential
rev_onto [] seen = seen
rev_onto (c ∷ cs) seen = rev_onto cs (c ∷ seen)

All-rev_onto :
    (P : Credential → Type 0) (cs seen : List Credential)
    → All P (rev_onto cs seen)
    → All P cs × All P seen
All-rev_onto P [] seen h = (tt, h)
All-rev_onto P (c ∷ cs) seen h =
    let (later, (p, earlier)) = All-rev_onto P cs (c ∷ seen) h in ((p, later), earlier)

In-rev_onto :
    (a : Credential) (cs seen : List Credential) → In a (rev_onto cs seen) → In a cs ⊎ In a seen
In-rev_onto a [] seen h = inr h
In-rev_onto a (c ∷ cs) seen h = elim (In-rev_onto a cs (c ∷ seen) h) [
  | inl later ↦ inl (inr later)
  | inr (inl e) ↦ inl (inl e)
  | inr (inr earlier) ↦ inr earlier
]

best_of-Seen :
    (wanted : Text) (cs seen : List Credential) (best : Option Best)
    → Seen wanted seen best
    → Seen wanted (rev_onto cs seen) (best_of wanted best cs)
unfolding best_of consider
best_of-Seen wanted [] seen best h = h
best_of-Seen wanted (c ∷ cs) seen best h =
    best_of-Seen wanted cs (c ∷ seen) (consider wanted best c)
      (weigh-Seen wanted seen best c (score_account_match wanted (c.account)) refl h)

-- The chosen credential is one of the given ones, is related, and no other comes before it: each
-- other one is unrelated, has a lower score, or has the same score and an account that is not
-- smaller. None is chosen only if all are unrelated.
abbrev pub IsChoice : Text → List Credential → Option Credential → Type 0
IsChoice wanted cs none = All (IsUnrelated wanted) cs
IsChoice wanted cs (some c) =
    (s : ℕ) × (score_account_match wanted (c.account) ≡ some s)
    × In c cs
    × All (Loses wanted (c.account) s) cs

IsChoice-of_Seen :
    (wanted : Text) (cs : List Credential) (best : Option Best)
    → Seen wanted (rev_onto cs []) best
    → IsChoice wanted cs (elim best [
      | none ↦ none
      | some b ↦ some (record { account = b.account; password = b.key })
    ])
IsChoice-of_Seen wanted cs none h = (All-rev_onto (IsUnrelated wanted) cs [] h).0
IsChoice-of_Seen wanted cs (some b) (e, here, h) = (
  b.score,
  e,
  elim (In-rev_onto (record { account = b.account; password = b.key }) cs [] here) [
    | inl found ↦ found
    | inr gone ↦ absurd gone
  ],
  (All-rev_onto (Loses wanted (b.account) (b.score)) cs [] h).0,
)

-- For any credentials and any wanted account, the result of findBestCredential is one of the
-- credentials, related to the account, and comes first: every credential is unrelated, or has a lower
-- score, or has the same score and an account that is not smaller. If there is no result, every
-- credential is unrelated.
pub find_best_credential-IsChoice :
    (wanted : Text) (cs : List Credential) → IsChoice wanted cs (find_best_credential cs wanted)
unfolding find_best_credential
find_best_credential-IsChoice wanted cs =
    IsChoice-of_Seen wanted cs (best_of wanted none cs) (best_of-Seen wanted cs [] none tt)

-- The text has no '/'.
abbrev pub HasNoSlash : Text → Type 0
HasNoSlash s = any (λ c. c == b'/') s ≡ false

-- An account is split back into the target and the base URL that made it, if the target has no '/'.
pub split_account-keychain_account :
    (target base_url : Text)
    → HasNoSlash target
    → split_account (keychain_account target base_url) ≡ (target, base_url)
unfolding split_account keychain_account
split_account-keychain_account [] base_url h = refl
split_account-keychain_account (c ∷ target) base_url h =
    ground (arith, split_account-keychain_account target base_url)

-- One text begins with the other.
abbrev pub Extends : Text → Text → Type 0
Extends s t = (r : Text) × (s ≡ t ++ r)

abbrev pub IsRelated : Text → Text → Type 0
IsRelated w c =
    Extends (normalize_base_url w) (normalize_base_url c)
    ⊎ Extends (normalize_base_url c) (normalize_base_url w)

IsRelated-of_score : (w c : Text) → score_base_url_match w c ≢ none → IsRelated w c
unfolding score_base_url_match
IsRelated-of_score w c h = elim (Bool-cases (same bw bc)) [
  | inl e ↦ inl ([], same→eq bw bc e ∙ sym (append-nil bc))
  | inr n ↦ elim (Bool-cases (starts_with bc bw)) [
    | inl e ↦ inl (starts_with_split bc bw e)
    | inr n' ↦ elim (Bool-cases (starts_with bw bc)) [
      | inl e ↦ inr (starts_with_split bw bc e)
      | inr n'' ↦ absurd (h (ground arith))
    ]
  ]
]
  where
    bw : Text
    bw = normalize_base_url w

    bc : Text
    bc = normalize_base_url c

score_of_IsRelated : (w c : Text) → IsRelated w c → score_base_url_match w c ≢ none
unfolding score_base_url_match
score_of_IsRelated w c (inl (r, e)) h =
    let found : starts_with (normalize_base_url c) (normalize_base_url w) ≡ true =
      rw e (starts_with-append (normalize_base_url c) r) in
    ground arith
score_of_IsRelated w c (inr (r, e)) h =
    let found : starts_with (normalize_base_url w) (normalize_base_url c) ≡ true =
      rw e (starts_with-append (normalize_base_url w) r) in
    ground arith

-- Two base URLs are related, for scoreBaseUrlMatch, exactly when one of them, less the slashes at its
-- end, begins with the other. Nothing asks that the shorter one end where a host or a path segment
-- of the longer one ends.
pub score_base_url_match_iff : (w c : Text) → (score_base_url_match w c ≢ none) ↔ IsRelated w c
score_base_url_match_iff w c = (IsRelated-of_score w c, score_of_IsRelated w c)

base_score-lower : (w c : Text) (s : ℕ) → score_base_url_match w c ≡ some s → 100000 ≤ s
unfolding score_base_url_match
base_score-lower w c s h = ground arith

base_score-upper :
    (w c : Text) (s : ℕ)
    → score_base_url_match w c ≡ some s
    → same (normalize_base_url w) (normalize_base_url c) ≡ false
    → s ≤ 100000 + length (normalize_base_url c)
unfolding score_base_url_match
base_score-upper w c s h k = ground arith

target_score_self : (s t : Text) → s ≡ t → target_score s t ≡ 10000
unfolding target_score
target_score_self s t e = rw (e, same_refl t)

account_score_parts :
    (wanted a : Text) (s : ℕ)
    → score_account_match wanted a ≡ some s
    → (base_score : ℕ) × (score_base_url_match ((split_account wanted).1) ((split_account a).1)
        ≡ some base_score)
      × (s ≡ base_score + target_score ((split_account wanted).0) ((split_account a).0))
unfolding score_account_match
account_score_parts wanted a s h =
    elim (Option-cases (score_base_url_match ((split_account wanted).1) ((split_account a).1))) [
      | inl e ↦ absurd (ground arith)
      | inr (base_score, e) ↦ (base_score, e, ground arith)
    ]

-- Of two related accounts, one with the wanted target has a higher score than one whose target is
-- unrelated and whose base URL, less the slashes at its end, is not the wanted one and is shorter than
-- ten thousand code units, however much more of the wanted base URL the second one shares.
pub target_outweighs_base_url :
    (wanted a b : Text) (s t : ℕ)
    → score_account_match wanted a ≡ some s
    → score_account_match wanted b ≡ some t
    → (split_account wanted).0 ≡ (split_account a).0
    → target_score ((split_account wanted).0) ((split_account b).0) ≡ 0
    → same
        (normalize_base_url ((split_account wanted).1))
        (normalize_base_url ((split_account b).1))
      ≡ false
    → length (normalize_base_url ((split_account b).1)) < 10000
    → t < s
target_outweighs_base_url wanted a b s t ha hb same_target unrelated differs short =
    let (x, hx, ex) = account_score_parts wanted a s ha in
    let (y, hy, ey) = account_score_parts wanted b t hb in
    omega (
      arith,
      base_score-lower _ _ x hx,
      base_score-upper _ _ y hy differs,
      target_score_self _ _ same_target,
    )
