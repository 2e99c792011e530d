-- ===== src/Ladder/Selection/Laws.antt =====
-- What deduplication and the cap keep, against a definition by filtering.
use model_proxy_v.Base.{
  ℕ, zero, suc, ◌≤◌, ◌≡◌, refl, sym, ap, subst, ◌∙◌, ◌⊎◌, inl, inr, Bool, true, false, not,
  Bool-cases, List, [], ◌∷◌, ◌++◌, Text, same, same_iff, includes, keep, take, length, length-take,
  In, All, All-take, All-keep, All-keep_self, arith, append_assoc, if◌then◌else◌,
}
use model_proxy_v.Values.{Number, is_finite, is_positive}
use model_proxy_v.Ladder.Descriptor.{Descriptor}
use model_proxy_v.Ladder.Selection.{key_of, dedupe_from, floor_of, dedupe_and_cap}

abbrev differs : Descriptor → Descriptor → Bool
differs d x = not (same (key_of x) (key_of d))

-- Each first descriptor of its key: the reference.
pub firsts : List Descriptor → List Descriptor
firsts [] = []
firsts (d ∷ ds) = d ∷ keep (differs d) (firsts ds)

abbrev unseen : List Text → Descriptor → Bool
unseen seen x = not (includes (key_of x) seen)

module _ {A : Type 0} (p q : A → Bool) where
  keep-keep_of_imp :
      ((x : A) → p x ≡ true → q x ≡ true) → (xs : List A) → keep p (keep q xs) ≡ keep p xs
  keep-keep_of_imp imp [] = refl
  keep-keep_of_imp imp (x ∷ xs) = ground (arith, imp x, keep-keep_of_imp imp xs)

  keep-keep :
      (r : A → Bool)
      → ((x : A) → r x ≡ (if q x then p x else false))
      → (xs : List A) → keep p (keep q xs) ≡ keep r xs
  keep-keep r eq [] = refl
  keep-keep r eq (x ∷ xs) = ground (arith, eq x, keep-keep r eq xs)

includes_of_same :
    (s t : Text) (seen : List Text)
    → includes t seen ≡ true
    → includes s seen ≡ false
    → same s t ≡ false
includes_of_same s t seen h k = elim (Bool-cases (same s t)) [
  | inl e ↦ cc (subst (λ u. includes u seen ≡ true) (sym ((same_iff s t).0 e)) h, k)
  | inr e ↦ e
]

dedupe_from-eq :
    (seen : List Text) (ds : List Descriptor) → dedupe_from seen ds ≡ keep (unseen seen) (firsts ds)
unfolding dedupe_from firsts
dedupe_from-eq seen [] = refl
dedupe_from-eq seen (d ∷ ds) = elim (Bool-cases (includes (key_of d) seen)) [
  | inl old ↦ rw old (
      dedupe_from-eq seen ds
      ∙ sym (
          keep-keep_of_imp (unseen seen) (differs d)
            (λ x h. ground (arith, includes_of_same (key_of x) (key_of d) seen old)) (firsts ds)))
  | inr new ↦ rw new (
      ap (◌∷◌ d) (
        dedupe_from-eq (key_of d ∷ seen) ds
        ∙ sym (
            keep-keep (unseen seen) (differs d) (unseen (key_of d ∷ seen)) (λ x. ground arith)
              (firsts ds))))
]

keep-true : {A : Type 0} (xs : List A) → keep (λ x. true) xs ≡ xs
keep-true [] = refl
keep-true (x ∷ xs) = ap (◌∷◌ x) (keep-true xs)

-- The loop keeps the first descriptor of each key, in the order of arrival.
pub dedupe_from-firsts : (ds : List Descriptor) → dedupe_from [] ds ≡ firsts ds
dedupe_from-firsts ds = dedupe_from-eq [] ds ∙ keep-true (firsts ds)

-- No two descriptors of the list have one key.
abbrev pub DistinctKeys : List Descriptor → Type 0
DistinctKeys [] = Unit
DistinctKeys (d ∷ ds) = All (λ x. differs d x ≡ true) ds × DistinctKeys ds

keep-DistinctKeys :
    (p : Descriptor → Bool) (ds : List Descriptor) → DistinctKeys ds → DistinctKeys (keep p ds)
keep-DistinctKeys p [] h = tt
keep-DistinctKeys p (d ∷ ds) (a, h) =
    ground (arith, All-keep (λ x. differs d x ≡ true) p ds a, keep-DistinctKeys p ds h)

take-DistinctKeys : (n : ℕ) (ds : List Descriptor) → DistinctKeys ds → DistinctKeys (take n ds)
take-DistinctKeys zero ds h = tt
take-DistinctKeys (suc n) [] h = tt
take-DistinctKeys (suc n) (d ∷ ds) (a, h) =
    (All-take (λ x. differs d x ≡ true) n ds a, take-DistinctKeys n ds h)

firsts-DistinctKeys : (ds : List Descriptor) → DistinctKeys (firsts ds)
unfolding firsts
firsts-DistinctKeys [] = tt
firsts-DistinctKeys (d ∷ ds) = (
  All-keep_self (differs d) (firsts ds),
  keep-DistinctKeys (differs d) (firsts ds) (firsts-DistinctKeys ds),
)

-- The list holds a descriptor with the key of `d`.
abbrev pub Holds : Descriptor → List Descriptor → Type 0
Holds d [] = ⊥
Holds d (x ∷ xs) = (key_of x ≡ key_of d) ⊎ Holds d xs

Holds-keep :
    (d e : Descriptor) (xs : List Descriptor)
    → differs e d ≡ true
    → Holds d xs
    → Holds d (keep (differs e) xs)
Holds-keep d e [] n h = h
Holds-keep d e (x ∷ xs) n (inl h) =
    let kept : differs e x ≡ true = subst (λ k. not (same k (key_of e)) ≡ true) (sym h) n in
    rw kept (inl h)
Holds-keep d e (x ∷ xs) n (inr h) = elim (Bool-cases (differs e x)) [
  | inl kept ↦ rw kept (inr (Holds-keep d e xs n h))
  | inr gone ↦ rw gone (Holds-keep d e xs n h)
]

firsts-Holds : (d : Descriptor) (ds : List Descriptor) → In d ds → Holds d (firsts ds)
unfolding firsts
firsts-Holds d [] h = h
firsts-Holds d (e ∷ ds) h = elim (Bool-cases (same (key_of d) (key_of e))) [
  | inl old ↦ inl (sym ((same_iff _ _).0 old))
  | inr new ↦ elim h [
    | inl here ↦ inl (ap key_of (sym here))
    | inr later ↦ inr (Holds-keep d e (firsts ds) (rw new) (firsts-Holds d ds later))
  ]
]

-- `out` has no more than `n` rungs, no two with one key, and is the first part of the deduplicated
-- list, in which every descriptor that is given has one with its key.
pub record IsSelection (n : ℕ) (ds out : List Descriptor) : Type 0 where
  pub capped : length out ≤ n
  pub distinct : DistinctKeys out
  pub ordered : out ≡ take n (firsts ds)
  pub covering : (d : Descriptor) → In d ds → Holds d (firsts ds)

-- For a cap that is finite and positive: the ladder of dedupeAndCap has no more rungs than the floor of
-- the cap, no two with one key, and is the first part of the list in which each descriptor with the key
-- of an earlier one is left out. In that list every descriptor that is given has one with its key.
pub dedupe_and_cap-IsSelection :
    (max : Number) (ds : List Descriptor)
    → is_finite max ≡ true
    → is_positive max ≡ true
    → IsSelection (floor_of max) ds (dedupe_and_cap max ds)
unfolding dedupe_and_cap
dedupe_and_cap-IsSelection max ds f p =
    let n = floor_of max in
    rw (f, p, dedupe_from-firsts ds)
      (record {
        capped = omega (arith, length-take n (firsts ds));
        distinct = take-DistinctKeys n (firsts ds) (firsts-DistinctKeys ds);
        ordered = refl;
        covering = λ d h. firsts-Holds d ds h;
      })

-- Where the target of one descriptor ends in `@` and a text `b` with which the base of another
-- begins, and their `key` is the same, the two have one deduplication key.
pub key_of_shifted :
    (t b c : Text) (d e : Descriptor)
    → d.target ≡ t ++ (b'@' ∷ b)
    → d.base ≡ c
    → e.target ≡ t
    → e.base ≡ b ++ (b'@' ∷ c)
    → d.key ≡ e.key
    → key_of d ≡ key_of e
unfolding key_of
key_of_shifted t b c d e dt db et eb k = rw (dt, db, et, eb, k) (simp append_assoc)
