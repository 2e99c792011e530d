-- ===== src/KeyStore/Match.antt =====
-- src/utils/key-store.ts: accounts `<target_model_id>/<base_url>`, and the best-effort match of a wanted
-- account with the stored ones. A score of -1 is `none`.
pub mod Laws
pub mod Tests
use model_proxy_v.Base.{
  ℕ, ◌+◌, min, Bool, true, false, ◌&&◌, ◌||◌, List, [], ◌∷◌, ◌++◌, Option, none, some, Text, same,
  starts_with, if◌then◌else◌, ltb, ◌==◌, length,
}

unfoldable pub keychain_account : Text → Text → Text
keychain_account target_model_id base_url = target_model_id ++ (b'/' ∷ base_url)

-- The parts before and behind the first '/'.
unfoldable pub split_account : Text → Text × Text
split_account [] = ([], [])
split_account (c ∷ s) =
    let (target, base_url) = split_account s in
    if c == b'/' then ([], s) else (c ∷ target, base_url)

abbrev pub is_empty : Text → Bool
is_empty [] = true
is_empty (c ∷ s) = false

-- `url.replace(/\/+$/, '')`
unfoldable pub normalize_base_url : Text → Text
normalize_base_url [] = []
normalize_base_url (c ∷ s) =
    let rest = normalize_base_url s in if c == b'/' && is_empty rest then [] else c ∷ rest

unfoldable pub score_base_url_match : Text → Text → Option ℕ
score_base_url_match wanted candidate =
    let bw = normalize_base_url wanted in
    let bc = normalize_base_url candidate in
    if same bw bc
    then some 1000000
    else if starts_with bc bw || starts_with bw bc
    then some (100000 + min (length bw) (length bc))
    else none

unfoldable pub target_score : Text → Text → ℕ
target_score w c =
    if same w c
    then 10000
    else if starts_with c w || starts_with w c
    then 5000 + min (length w) (length c)
    else 0

unfoldable pub score_account_match : Text → Text → Option ℕ
score_account_match wanted candidate =
    let w = split_account wanted in
    let c = split_account candidate in
    elim (score_base_url_match (w.1) (c.1)) [
      | none ↦ none
      | some base_score ↦ some (base_score + target_score (w.0) (c.0))
    ]

-- `a < b` on strings: by code units
unfoldable pub text_lt : Text → Text → Bool
text_lt s [] = false
text_lt [] (d ∷ t) = true
text_lt (c ∷ s) (d ∷ t) = ltb c d || (c == d && text_lt s t)

pub record Credential : Type 0 where
  pub account : Text
  pub password : Text

pub record Best : Type 0 where
  pub key : Text
  pub account : Text
  pub score : ℕ

-- `!best || score > best.score || (score === best.score && account < best.account)`
unfoldable pub beats : ℕ → Text → Option Best → Bool
beats score account none = true
beats score account (some best) =
    ltb (best.score) score || (score == best.score && text_lt account (best.account))

-- The body of the loop, at the credential's score.
unfoldable pub weigh : Option Best → Credential → Option ℕ → Option Best
unfolding beats
weigh best c none = best
weigh best c (some score) =
    if beats score (c.account) best
    then some (record { key = c.password; account = c.account; score = score })
    else best

unfoldable pub consider : Text → Option Best → Credential → Option Best
consider wanted best c = weigh best c (score_account_match wanted (c.account))

unfoldable pub best_of : Text → Option Best → List Credential → Option Best
best_of wanted best [] = best
best_of wanted best (c ∷ cs) = best_of wanted (consider wanted best c) cs

unfoldable pub find_best_credential : List Credential → Text → Option Credential
find_best_credential credentials wanted = elim (best_of wanted none credentials) [
  | none ↦ none
  | some best ↦ some (record { account = best.account; password = best.key })
]
