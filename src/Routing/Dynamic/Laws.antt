-- ===== src/Routing/Dynamic/Laws.antt =====
-- What a parsed route says of the URL.
use native.Mathlib.Decide.{dec_le}
use model_proxy_v.Base.{
  ℕ, zero, suc, ◌+◌, ◌-◌, ◌≤◌, ◌<◌, ◌≡◌, refl, sym, ap, subst, ◌∙◌, ◌⊎◌, inl, inr, true, false, not,
  ◌||◌, Bool-cases, Option-cases, List, [], ◌∷◌, ◌++◌, Option, none, some, some_injective, Text,
  codes, same, same→eq, length, take, drop, join_with, arith, ltb, tests, if◌then◌else◌,
  append_assoc,
}
use model_proxy_v.Routing.Dynamic.{
  Result, ok, fails, ParsedRoute, slice, is_endpoint_at, locate, is_model_id, get_last?, find_model,
  with_slash, assemble, parse_parts,
}

-- The loop finds the last index, from 2 on, at which an endpoint stands.
record IsLast (parts : List Text) (i s : ℕ) : Type 0 where
  low : 2 ≤ s
  high : s ≤ i
  endpoint : is_endpoint_at parts s ≡ true
  last : (k : ℕ) → s < k → k ≤ i → is_endpoint_at parts k ≡ false

last_next :
    (parts : List Text) (i s : ℕ)
    → is_endpoint_at parts (suc i) ≡ false
    → ((k : ℕ) → s < k → k ≤ i → is_endpoint_at parts k ≡ false)
    → (k : ℕ) → s < k
    → k ≤ suc i
    → is_endpoint_at parts k ≡ false
last_next parts i s here below k h l = elim (dec_le k i) [
  | yes lower ↦ below k h lower
  | no top ↦ let e : suc i ≡ k = omega arith in subst (λ j. is_endpoint_at parts j ≡ false) e here
]

locate-IsLast : (parts : List Text) (i s : ℕ) → locate parts i ≡ some s → IsLast parts i s
unfolding locate
locate-IsLast parts zero s h = cc
locate-IsLast parts (suc i) s h = elim (Bool-cases (ltb (suc i) 2)) [
  | inl low ↦ cc (rw low at h)
  | inr big ↦ elim (Bool-cases (is_endpoint_at parts (suc i))) [
    | inl found ↦
        let e : suc i ≡ s = some_injective (rw (big, found) at h) in
        subst (IsLast parts (suc i)) e (record {
          low = omega tests;
          high = omega arith;
          endpoint = found;
          last = λ k a b. absurd (omega arith);
        })
    | inr other ↦
        let r = locate-IsLast parts i s (rw (big, other) at h) in
        record {
          low = r.low;
          high = omega (arith, r.high);
          endpoint = r.endpoint;
          last = last_next parts i s other r.last;
        }
  ]
]

take-split : (n : ℕ) (xs : List Text) → xs ≡ take n xs ++ drop n xs
take-split zero xs = refl
take-split (suc n) [] = refl
take-split (suc n) (x ∷ xs) = ap (◌∷◌ x) (take-split n xs)

take-get_last? :
    (n : ℕ) (xs : List Text) (m : Text)
    → suc n ≤ length xs
    → get_last? (take (suc n) xs) ≡ some m
    → take (suc n) xs ≡ take n xs ++ m ∷ []
take-get_last? n [] m h e = absurd (omega arith)
take-get_last? zero (x ∷ xs) m h e = ap (λ a. a ∷ []) (some_injective e)
take-get_last? (suc n) (x ∷ []) m h e = absurd (omega arith)
take-get_last? (suc n) (x ∷ y ∷ xs) m h e = ap (◌∷◌ x) (take-get_last? n (y ∷ xs) m (omega arith) e)

-- The parts of a model.
abbrev pub model_list : Option Text → List Text
model_list none = []
model_list (some m) = m ∷ []

-- The URL's parts behind protocol and host are the path of the target, the model if one was found,
-- and the endpoint, in this order; the endpoint begins at the last place where one can.
pub record IsRoute (protocol host : Text) (rest : List Text) (r : ParsedRoute) : Type 0 where
  pub scheme : (protocol ≡ codes "http") ⊎ (protocol ≡ codes "https")
  pub path : List Text
  pub endpoint : List Text
  pub whole : rest ≡ path ++ (model_list r.model_id ++ endpoint)
  pub start : ℕ
  pub begins : is_endpoint_at (protocol ∷ host ∷ rest) start ≡ true
  pub place : endpoint ≡ drop start (protocol ∷ host ∷ rest)
  pub last :
      (k : ℕ) → start < k → k ≤ length rest + 1 → is_endpoint_at (protocol ∷ host ∷ rest) k ≡ false
  pub url : r.target_config.target_url ≡ protocol ++ (codes "://" ++ host)
  pub prefix : r.target_config.target_path_prefix ≡ with_slash (join_with b'/' path)
  pub claude : r.claude_endpoint ≡ join_with b'/' endpoint

-- What `find_model` gives for an endpoint at `k + 2`.
data Found (rest : List Text) (k : ℕ) : Result (Option Text × ℕ) → Type 0 where
  alone : (stop : ℕ) → stop ≡ suc k → Found rest k (ok (none, stop))
  model :
      (m : Text) (j stop : ℕ)
      → k ≡ suc j
      → stop ≡ suc j
      → take k rest ≡ take j rest ++ m ∷ []
      → Found rest k (ok (some m, stop))

ok_injective : {A : Type 0} {a b : A} → ok a ≡ ok b → a ≡ b
ok_injective h = cc

-- `find_model` where the parts in front of the endpoint are `path`.
find_model_on : List Text → ℕ → Result (Option Text × ℕ)
find_model_on path stop = elim (get_last? path) [
  | none ↦ ok (none, stop)
  | some m ↦ if is_model_id m then ok (some m, stop - 1) else ok (none, stop)
]

slice_empty : (parts : List Text) (n m : ℕ) → n ≡ m → slice n m parts ≡ []
unfolding slice
slice_empty parts n m h = let e : m - n ≡ 0 = omega arith in rw e

slice_path :
    (p h : Text) (rest : List Text) (n k : ℕ)
    → n ≡ suc (suc k)
    → slice 2 n (p ∷ h ∷ rest) ≡ take k rest
unfolding slice
slice_path p h rest n k e = let e' : n - 2 ≡ k = omega arith in rw e'

find_model_lem :
    (p h : Text) (rest : List Text) (k stop start : ℕ)
    → stop + 1 ≡ start
    → start ≡ suc (suc k)
    → find_model (p ∷ h ∷ rest) stop start ≡ find_model_on (take k rest) stop
unfolding find_model find_model_on
find_model_lem p h rest k stop start e f =
    rw (slice_empty (p ∷ h ∷ rest) (stop + 1) start e, find_model)
      (rw (slice_path p h rest (stop + 1) k (e ∙ f), find_model))

find_model_on-Found :
    (rest : List Text) (k : ℕ)
    → k ≤ length rest
    → Found rest k (find_model_on (take k rest) (suc k))
unfolding find_model_on
find_model_on-Found rest zero fits = alone 1 refl
find_model_on-Found rest (suc j) fits = elim (Option-cases (get_last? (take (suc j) rest))) [
  | inl e ↦ rw (e, find_model_on) (alone (suc (suc j)) refl)
  | inr (m, e) ↦ elim (Bool-cases (is_model_id m)) [
    | inl yes_model ↦
        rw (e, yes_model, find_model_on)
          (model m j (suc (suc j) - 1) refl (omega arith) (take-get_last? j rest m fits e))
    | inr no_model ↦ rw (e, no_model, find_model_on) (alone (suc (suc j)) refl)
  ]
]

module _ (p h : Text) (rest : List Text) where
  abbrev whole_url : List Text
  whole_url = p ∷ h ∷ rest

  assemble-IsRoute :
      (k : ℕ) (found : Result (Option Text × ℕ)) (r : ParsedRoute)
      → (p ≡ codes "http") ⊎ (p ≡ codes "https")
      → IsLast whole_url (length rest + 1) (suc (suc k))
      → Found rest k found
      → assemble whole_url p h (suc (suc k)) found ≡ ok r
      → IsRoute p h rest r
  unfolding assemble
  assemble-IsRoute k (fails e) r scheme l f done = elim f [ ]
  assemble-IsRoute k (ok (none, stop)) r scheme l (alone n e) done =
      let path = slice_path p h rest (stop + 1) k (omega arith) in
      subst (IsRoute p h rest) (ok_injective done) (record {
        scheme = scheme;
        path = take k rest;
        endpoint = drop k rest;
        whole = take-split k rest;
        start = suc (suc k);
        begins = l.endpoint;
        place = refl;
        last = l.last;
        url = refl;
        prefix = rw path;
        claude = refl;
      })
  assemble-IsRoute k (ok (some m, stop)) r scheme l (model n j stop' e f g) done =
      let path = slice_path p h rest (stop + 1) j (omega arith) in
      subst (IsRoute p h rest) (ok_injective done) (record {
        scheme = scheme;
        path = take j rest;
        endpoint = drop k rest;
        whole =
            take-split k rest
            ∙ ap (λ t. t ++ drop k rest) g
            ∙ append_assoc (take j rest) (m ∷ []) (drop k rest);
        start = suc (suc k);
        begins = l.endpoint;
        place = refl;
        last = l.last;
        url = refl;
        prefix = rw path;
        claude = refl;
      })

  scheme_cases :
      not (same p (codes "http") || same p (codes "https")) ≡ false
      → (p ≡ codes "http") ⊎ (p ≡ codes "https")
  scheme_cases h = elim (Bool-cases (same p (codes "http"))) [
    | inl e ↦ inl (same→eq p (codes "http") e)
    | inr e ↦ inr (same→eq p (codes "https") (ground arith))
  ]

  located :
      (start : ℕ) (r : ParsedRoute)
      → (p ≡ codes "http") ⊎ (p ≡ codes "https")
      → locate whole_url (length whole_url - 1) ≡ some start
      → assemble whole_url p h start (find_model whole_url (start - 1) start) ≡ ok r
      → IsRoute p h rest r
  located zero r scheme found done = absurd (omega (arith, (locate-IsLast whole_url _ 0 found).low))
  located (suc zero) r scheme found done =
      absurd (omega (arith, (locate-IsLast whole_url _ 1 found).low))
  located (suc (suc k)) r scheme found done =
      let width : length whole_url - 1 ≡ length rest + 1 = omega arith in
      let l =
        subst (λ i. IsLast whole_url i (suc (suc k))) width
          (locate-IsLast whole_url _ (suc (suc k)) found) in
      let stop : suc (suc k) - 1 ≡ suc k = omega arith in
      let f =
        subst (λ n. Found rest k (find_model_on (take k rest) n)) (sym stop)
          (find_model_on-Found rest k (omega (arith, l.high))) in
      assemble-IsRoute k _ r scheme l f
        (rw (find_model_lem p h rest k (suc (suc k) - 1) (suc (suc k)) (omega arith) refl) at done)

  -- A URL that is parsed has the scheme `http` or `https`, and its other parts are, in this order,
  -- the host, the path of the target, the model if one was found, and the endpoint, which begins at
  -- the last place where `v1` or `v1beta` is followed by `models`, `messages` or `interactions`.
  pub parse_parts-IsRoute : (r : ParsedRoute) → parse_parts whole_url ≡ ok r → IsRoute p h rest r
  unfolding parse_parts
  parse_parts-IsRoute r done = elim (Bool-cases (ltb (length whole_url) 4)) [
    | inl short ↦ cc (rw short at done)
    | inr long ↦ elim (Bool-cases (not (same p (codes "http") || same p (codes "https")))) [
      | inl other ↦ cc (rw (long, other) at done)
      | inr known ↦ elim (Option-cases (locate whole_url (length whole_url - 1))) [
        | inl missing ↦ cc (rw (long, known, missing, parse_parts) at done)
        | inr (start, found) ↦
            located start r (scheme_cases known) found
              (rw (long, known, found, parse_parts) at done)
      ]
    ]
  ]
