-- ===== src/KeyStore/Match/Tests.antt =====
-- Matches on concrete accounts.
use model_proxy_v.Base.{
  ℕ, ◌≡◌, ◌≢◌, ◌↔◌, ◌<◌, refl, false, List, [], ◌∷◌, ◌++◌, some, none, Text, codes, length, arith,
  same,
}
use model_proxy_v.KeyStore.Match.{
  split_account, score_base_url_match, score_account_match, Credential, find_best_credential,
  target_score, normalize_base_url, best_of, consider, weigh,
}
use model_proxy_v.KeyStore.Match.Laws.{IsChoice, find_best_credential-IsChoice}

abbrev wanted : Text
wanted = codes "glm/https://api.z.ai/api/anthropic"

abbrev near : Text
near = codes "glm/https://api.z.ai/api"

abbrev nearer : Text
nearer = codes "kimi/https://api.z.ai/api/anth"

abbrev stored : List Credential
stored =
    record { account = codes "glm/https://other.host"; password = codes "k0" }
    ∷ record { account = nearer; password = codes "k1" }
    ∷ record { account = near; password = codes "k2" }
    ∷ []

unrelated_score : score_account_match wanted (codes "glm/https://other.host") ≡ none
unfolding score_account_match score_base_url_match same normalize_base_url split_account
    model_proxy_v.Base.starts_with
unrelated_score = refl

near_score : score_account_match wanted near ≡ some 110020
unfolding score_account_match score_base_url_match same normalize_base_url split_account
    model_proxy_v.Base.starts_with target_score
near_score = refl

nearer_score : score_account_match wanted nearer ≡ some 100025
unfolding score_account_match score_base_url_match same normalize_base_url split_account
    model_proxy_v.Base.starts_with target_score
nearer_score = refl

chosen :
    find_best_credential stored wanted ≡ some (record { account = near; password = codes "k2" })
unfolding find_best_credential best_of consider weigh score_account_match score_base_url_match same
    normalize_base_url split_account model_proxy_v.Base.starts_with target_score
chosen = refl

find_best_credential-IsChoice_example : IsChoice wanted stored (find_best_credential stored wanted)
find_best_credential-IsChoice_example = find_best_credential-IsChoice wanted stored

no_target_score : target_score ((split_account wanted).0) ((split_account nearer).0) ≡ 0
unfolding target_score split_account same model_proxy_v.Base.starts_with
no_target_score = refl

other_url :
    same
      (normalize_base_url ((split_account wanted).1))
      (normalize_base_url ((split_account nearer).1))
    ≡ false
unfolding same normalize_base_url split_account
other_url = refl

one_target : (split_account wanted).0 ≡ (split_account near).0
unfolding split_account
one_target = refl

short_url : length (normalize_base_url ((split_account nearer).1)) < 10000
unfolding normalize_base_url split_account
short_url = omega arith
