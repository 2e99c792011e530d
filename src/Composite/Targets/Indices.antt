-- ===== src/Composite/Targets/Indices.antt =====
-- src/utils/config-loader.ts, getOrderedCompositeTargets: the indices of the resolved targets.
use model_proxy_v.Base.{
  ℕ, suc, ◌≡◌, ◌≤◌, refl, ap, Bool, false, not, List, [], ◌∷◌, Option, some, Text, ◌==◌, keep, In,
  All, All-keep, arith, Bool-cases, Option-cases, inl, inr, some_injective, subst,
}
use model_proxy_v.Composite.Amounts.{Amounts}
use model_proxy_v.Composite.Shares.{CompositeTargetConfig}
use model_proxy_v.Composite.Targets.{ModelRouteConfig, Target, config_of, resolve_targets}

module _ (n : Amounts) (R : Type 0) where
  open n use {Amount, nought, one, at_most, plus, less, at_most_total}

  -- Every index is at least `i`.
  abbrev pub IsFrom : ℕ → List (Target n R) → Type 0
  IsFrom i ts = All (λ (t : Target n R). i ≤ t.index) ts

  -- No two targets have one index.
  abbrev pub DistinctIndices : List (Target n R) → Type 0
  DistinctIndices [] = Unit
  DistinctIndices (t ∷ ts) =
      All (λ (u : Target n R). (u.index == t.index) ≡ false) ts × DistinctIndices ts

  IsFrom-weaken : (i : ℕ) (ts : List (Target n R)) → IsFrom (suc i) ts → IsFrom i ts
  IsFrom-weaken i [] h = tt
  IsFrom-weaken i (t ∷ ts) (e, h) = (omega arith, IsFrom-weaken i ts h)

  differ_of_IsFrom :
      (t : Target n R) (ts : List (Target n R))
      → IsFrom (suc (t.index)) ts
      → All (λ (u : Target n R). (u.index == t.index) ≡ false) ts
  differ_of_IsFrom t [] h = tt
  differ_of_IsFrom t (u ∷ us) (e, h) = (ground arith, differ_of_IsFrom t us h)

  pub resolved-Distinct :
      (route_of : Text → Option (ModelRouteConfig R)) (i : ℕ)
      (entries : List (Text × Option (CompositeTargetConfig Amount))) (ts : List (Target n R))
      → resolve_targets n R route_of i entries ≡ some ts
      → IsFrom i ts × DistinctIndices ts
  unfolding resolve_targets
  resolved-Distinct route_of i [] ts h =
      subst (λ ts. IsFrom i ts × DistinctIndices ts) (some_injective h) (tt, tt)
  resolved-Distinct route_of i ((name, c) ∷ entries) ts h = elim (Option-cases (route_of name)) [
    | inl e ↦ absurd (ground arith)
    | inr (r, e) ↦ elim (Option-cases (resolve_targets n R route_of (suc i) entries)) [
      | inl f ↦ absurd (ground arith)
      | inr (us, f) ↦
          let (from, d) = resolved-Distinct route_of (suc i) entries us f in
          let t : Target n R = record {
            target_model_name = name;
            target_config = config_of n R c;
            route = r;
            index = i;
          } in
          let whole : t ∷ us ≡ ts = ground arith in
          subst (λ ts. IsFrom i ts × DistinctIndices ts) whole
            ((omega arith, IsFrom-weaken i us from), (differ_of_IsFrom t us from, d))
    ]
  ]

  pub keep-Distinct :
      (p : Target n R → Bool) (ts : List (Target n R))
      → DistinctIndices ts
      → DistinctIndices (keep p ts)
  keep-Distinct p [] d = tt
  keep-Distinct p (t ∷ ts) (h, d) = elim (Bool-cases (p t)) [
    | inl e ↦
        rw e
          (All-keep (λ (u : Target n R). (u.index == t.index) ≡ false) p ts h, keep-Distinct p ts d)
    | inr e ↦ rw e (keep-Distinct p ts d)
  ]

  pub All-others :
      (t : Target n R) (ts : List (Target n R))
      → All (λ (u : Target n R). (u.index == t.index) ≡ false) ts
      → keep (λ (u : Target n R). not (u.index == t.index)) ts ≡ ts
  All-others t [] h = refl
  All-others t (u ∷ us) (e, h) = ground (arith, All-others t us h)

  pub ne_of_In :
      (t u : Target n R) (ts : List (Target n R))
      → All (λ (x : Target n R). (x.index == u.index) ≡ false) ts
      → In t ts
      → (u.index == t.index) ≡ false
  ne_of_In t u [] h i = absurd i
  ne_of_In t u (x ∷ xs) (e, h) (inl f) = ground (arith, ap (λ (x : Target n R). x.index) f)
  ne_of_In t u (x ∷ xs) (e, h) (inr i) = ne_of_In t u xs h i
