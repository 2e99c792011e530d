-- ===== src/Base/Table.antt =====
-- A JavaScript `Map` with text keys: entries in the order of insertion. Setting a key that is
-- present keeps its place.
use mathlib.Core.Path.{◌≡◌, refl, sym, subst}
use mathlib.Core.Logic.{inl, inr}
use mathlib.Core.Bool.{Bool, false}
use mathlib.Core.List.{List, [], ◌∷◌, ◌++◌}
use mathlib.Core.Option.{Option, none, some}
use Prim.Native.Nat.{ℕ, zero, suc, ◌+◌, ◌≤◌}
use native.Mathlib.Omega.{arith}
use model_proxy_v.Base.Tests.{if◌then◌else◌, Bool-cases}
use model_proxy_v.Base.Lists.{length, keep, All, drop}
use model_proxy_v.Base.Texts.{Text, same, same_iff, same→eq, same-false_sym}

module _ {V : Type 0} where
  unfoldable pub get : Text → List (Text × V) → Option V
  get k [] = none
  get k ((j, v) ∷ m) = if same j k then some v else get k m

  unfoldable pub set : Text → V → List (Text × V) → List (Text × V)
  set k v [] = (k, v) ∷ []
  set k v ((j, w) ∷ m) = if same j k then (j, v) ∷ m else (j, w) ∷ set k v m

  unfoldable pub delete : Text → List (Text × V) → List (Text × V)
  delete k [] = []
  delete k ((j, w) ∷ m) = let rest = delete k m in if same j k then rest else (j, w) ∷ rest

  -- No entry of the table has the key.
  abbrev pub Absent : Text → List (Text × V) → Type 0
  Absent k [] = Unit
  Absent k ((j, w) ∷ m) = (same j k ≡ false) × Absent k m

  -- Every key stands once.
  abbrev pub Distinct : List (Text × V) → Type 0
  Distinct [] = Unit
  Distinct ((j, w) ∷ m) = Absent j m × Distinct m

  pub get-set :
      (k j : Text) (v : V) (m : List (Text × V))
      → get j (set k v m) ≡ (if same k j then some v else get j m)
  unfolding get set
  get-set k j v [] = refl
  get-set k j v ((i, w) ∷ m) =
      ground (arith, same_iff k j, same_iff i k, same_iff i j, get-set k j v m)

  pub get-delete :
      (k j : Text) (m : List (Text × V)) → get j (delete k m) ≡ (if same k j then none else get j m)
  unfolding get delete
  get-delete k j [] = ground arith
  get-delete k j ((i, w) ∷ m) =
      ground (arith, same_iff k j, same_iff i k, same_iff i j, get-delete k j m)

  pub get-none_of_Absent : (k : Text) (m : List (Text × V)) → Absent k m → get k m ≡ none
  unfolding get
  get-none_of_Absent k [] h = refl
  get-none_of_Absent k ((j, w) ∷ m) (h, r) = rw h (get-none_of_Absent k m r)

  pub Absent-of_get-none : (k : Text) (m : List (Text × V)) → get k m ≡ none → Absent k m
  unfolding get
  Absent-of_get-none k [] h = tt
  Absent-of_get-none k ((j, w) ∷ m) h = ground (arith, Absent-of_get-none k m)

  Absent-set :
      (i k : Text) (v : V) (m : List (Text × V))
      → same k i ≡ false
      → Absent i m
      → Absent i (set k v m)
  unfolding set
  Absent-set i k v [] n h = (n, tt)
  Absent-set i k v ((j, w) ∷ m) n (h, r) = ground (arith, Absent-set i k v m n r)

  pub set-Distinct : (k : Text) (v : V) (m : List (Text × V)) → Distinct m → Distinct (set k v m)
  unfolding set
  set-Distinct k v [] d = (tt, tt)
  set-Distinct k v ((j, w) ∷ m) (a, d) = elim (Bool-cases (same j k)) [
    | inl e ↦ rw e (a, d)
    | inr e ↦ rw e (Absent-set j k v m (same-false_sym j k e) a, set-Distinct k v m d)
  ]

  Absent-delete : (i k : Text) (m : List (Text × V)) → Absent i m → Absent i (delete k m)
  unfolding delete
  Absent-delete i k [] h = tt
  Absent-delete i k ((j, w) ∷ m) (h, r) = ground (arith, Absent-delete i k m r)

  pub delete-Distinct : (k : Text) (m : List (Text × V)) → Distinct m → Distinct (delete k m)
  unfolding delete
  delete-Distinct k [] d = tt
  delete-Distinct k ((j, w) ∷ m) (a, d) =
      ground (arith, Absent-delete j k m a, delete-Distinct k m d)

  pub length-set-le : (k : Text) (v : V) (m : List (Text × V)) → length (set k v m) ≤ length m + 1
  unfolding set
  length-set-le k v [] = omega arith
  length-set-le k v ((j, w) ∷ m) = ground (arith, length-set-le k v m)

  pub length-delete-le : (k : Text) (m : List (Text × V)) → length (delete k m) ≤ length m
  unfolding delete
  length-delete-le k [] = omega arith
  length-delete-le k ((j, w) ∷ m) = ground (arith, length-delete-le k m)

  -- A new key is added at the end.
  pub set-Absent :
      (k : Text) (v : V) (m : List (Text × V)) → Absent k m → set k v m ≡ m ++ (k, v) ∷ []
  unfolding set
  set-Absent k v [] h = refl
  set-Absent k v ((j, w) ∷ m) (h, r) = ground (arith, set-Absent k v m r)

module _ {V : Type 0} (p : Text × V → Bool) where
  Absent-keep : (i : Text) (m : List (Text × V)) → Absent i m → Absent i (keep p m)
  Absent-keep i [] h = tt
  Absent-keep i ((j, w) ∷ m) (h, r) = ground (arith, Absent-keep i m r)

  pub keep-Distinct : (m : List (Text × V)) → Distinct m → Distinct (keep p m)
  keep-Distinct [] d = tt
  keep-Distinct ((j, w) ∷ m) (a, d) = ground (arith, Absent-keep j m a, keep-Distinct m d)

  -- Filtering a table keeps a key exactly when its entry passes.
  pub get-keep :
      (k : Text) (m : List (Text × V))
      → Distinct m
      → get k (keep p m)
        ≡ elim (get k m) [ none ↦ none | some v ↦ if p (k, v) then some v else none ]
  unfolding get
  get-keep k [] d = refl
  get-keep k ((j, w) ∷ m) (a, d) = elim (Bool-cases (same j k)) [
    | inl e ↦
        let here : j ≡ k = same→eq j k e in
        let gone : get k (keep p m) ≡ none =
          get-none_of_Absent k _ (subst (λ i. Absent i (keep p m)) here (Absent-keep j m a)) in
        ground arith
    | inr e ↦ ground (arith, get-keep k m d)
  ]

module _ {V : Type 0} where
  pub All-set :
      (P : Text × V → Type 0) (k : Text) (v : V) (m : List (Text × V))
      → All P m
      → P (k, v)
      → All P (set k v m)
  unfolding set
  All-set P k v [] h p = (p, tt)
  All-set P k v ((j, w) ∷ m) (q, h) p = elim (Bool-cases (same j k)) [
    | inl e ↦ rw e (subst (λ i. P (i, v)) (sym (same→eq j k e)) p, h)
    | inr e ↦ rw e (q, All-set P k v m h p)
  ]

  pub Absent-drop : (i : Text) (n : ℕ) (m : List (Text × V)) → Absent i m → Absent i (drop n m)
  Absent-drop i zero m h = h
  Absent-drop i (suc n) [] h = tt
  Absent-drop i (suc n) ((j, w) ∷ m) (h, r) = Absent-drop i n m r

  pub drop-Distinct : (n : ℕ) (m : List (Text × V)) → Distinct m → Distinct (drop n m)
  drop-Distinct zero m d = d
  drop-Distinct (suc n) [] d = tt
  drop-Distinct (suc n) ((j, w) ∷ m) (a, d) = drop-Distinct n m d
