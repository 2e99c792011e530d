-- ===== src/Composite/Targets/Sorting.antt =====
-- src/utils/config-loader.ts, getOrderedCompositeTargets: moving a target to the front, and the sort by
-- fallback numbers.
use model_proxy_v.Base.{
  ◌≡◌, ◌⊎◌, ◌≤◌, sym, true, false, List, [], ◌∷◌, none, some, ◌==◌, In, All, arith, Bool-cases, inl,
  inr, subst, if◌then◌else◌, leb, ◌&&◌,
}
use mathlib.Core.List.{Perm}
use mathlib.Core.List.Perm
use model_proxy_v.Composite.Amounts.{Amounts}
use model_proxy_v.Composite.Targets.{
  Target, normalized_fallback, precedes, insert_sorted, sort_by_fallback, move_first,
}
use model_proxy_v.Composite.Targets.Indices.{DistinctIndices, All-others, ne_of_In}

module _ (n : Amounts) (R : Type 0) where
  open n use {Amount, nought, one, at_most, plus, less, at_most_total}

  module _ (infinity : Amount) where
    pub move_first-Perm :
        (t : Target n R) (ts : List (Target n R))
        → DistinctIndices n R ts
        → In t ts
        → Perm (move_first n R infinity t ts) ts
    unfolding move_first
    move_first-Perm t [] d i = absurd i
    move_first-Perm t (u ∷ us) (h, d) (inl e) =
        subst (λ (x : Target n R). Perm (move_first n R infinity x (u ∷ us)) (u ∷ us)) (sym e)
          (subst (λ xs. Perm (u ∷ xs) (u ∷ us)) (ground (arith, All-others n R u us h)) Perm.rfl)
    move_first-Perm t (u ∷ us) (h, d) (inr i) =
        rw (ne_of_In n R t u us h i)
          (Perm.trans (Perm.swap u t _) (Perm.cons u (move_first-Perm t us d i)))

    insert_sorted-Perm :
        (t : Target n R) (ts : List (Target n R)) → Perm (insert_sorted n R infinity t ts) (t ∷ ts)
    unfolding insert_sorted
    insert_sorted-Perm t [] = Perm.rfl
    insert_sorted-Perm t (u ∷ us) = elim (Bool-cases (precedes n R infinity t u)) [
      | inl e ↦ rw e Perm.rfl
      | inr e ↦ rw e (Perm.trans (Perm.cons u (insert_sorted-Perm t us)) (Perm.swap t u us))
    ]

    pub sort_by_fallback-Perm :
        (ts : List (Target n R)) → Perm (sort_by_fallback n R infinity ts) ts
    unfolding sort_by_fallback
    sort_by_fallback-Perm [] = Perm.rfl
    sort_by_fallback-Perm (t ∷ ts) =
        Perm.trans (insert_sorted-Perm t (sort_by_fallback n R infinity ts))
          (Perm.cons t (sort_by_fallback-Perm ts))

    -- No target comes before the one in front of it.
    abbrev pub IsOrdered : List (Target n R) → Type 0
    IsOrdered [] = Unit
    IsOrdered (t ∷ []) = Unit
    IsOrdered (t ∷ u ∷ us) = (precedes n R infinity t u ≡ true) × IsOrdered (u ∷ us)

    precedes_total :
        (t u : Target n R) → precedes n R infinity t u ≡ false → precedes n R infinity u t ≡ true
    unfolding precedes
    precedes_total t u h = ground (
      arith,
      at_most_total (normalized_fallback n R infinity t) (normalized_fallback n R infinity u),
    )

    insert_head :
        (t u : Target n R) (us : List (Target n R))
        → precedes n R infinity t u ≡ false
        → IsOrdered (u ∷ us)
        → IsOrdered (insert_sorted n R infinity t us)
        → IsOrdered (u ∷ insert_sorted n R infinity t us)
    unfolding insert_sorted
    insert_head t u [] e o h = (precedes_total t u e, tt)
    insert_head t u (x ∷ xs) e (p, o) h = elim (Bool-cases (precedes n R infinity t x)) [
      | inl f ↦ rw f (precedes_total t u e, (f, o))
      | inr f ↦
          let step : insert_sorted n R infinity t (x ∷ xs) ≡ x ∷ insert_sorted n R infinity t xs =
            ground arith in
          subst (λ l. IsOrdered (u ∷ l)) (sym step) (p, subst IsOrdered step h)
    ]

    IsOrdered-tail : (u : Target n R) (us : List (Target n R)) → IsOrdered (u ∷ us) → IsOrdered us
    IsOrdered-tail u [] o = tt
    IsOrdered-tail u (x ∷ xs) (p, o) = o

    insert_sorted-IsOrdered :
        (t : Target n R) (ts : List (Target n R))
        → IsOrdered ts
        → IsOrdered (insert_sorted n R infinity t ts)
    unfolding insert_sorted
    insert_sorted-IsOrdered t [] o = tt
    insert_sorted-IsOrdered t (u ∷ us) o = elim (Bool-cases (precedes n R infinity t u)) [
      | inl e ↦ rw e (e, o)
      | inr e ↦ rw e (insert_head t u us e o (insert_sorted-IsOrdered t us (IsOrdered-tail u us o)))
    ]

    pub sort_by_fallback-IsOrdered :
        (ts : List (Target n R)) → IsOrdered (sort_by_fallback n R infinity ts)
    unfolding sort_by_fallback
    sort_by_fallback-IsOrdered [] = tt
    sort_by_fallback-IsOrdered (t ∷ ts) =
        insert_sorted-IsOrdered t (sort_by_fallback n R infinity ts) (sort_by_fallback-IsOrdered ts)

    -- The fallback number, or infinity where there is none over 0.
    abbrev pub rank : Target n R → Amount
    rank t = elim ((t.target_config).fallback) [
      | none ↦ infinity
      | some f ↦ if at_most f nought then infinity else f
    ]

    -- The left target has a lower rank, or the same rank and an earlier place.
    abbrev pub IsAhead : Target n R → Target n R → Type 0
    IsAhead t u =
        (at_most (rank u) (rank t) ≡ false)
        ⊎ ((at_most (rank t) (rank u) ≡ true)
            × (at_most (rank u) (rank t) ≡ true)
            × (t.index ≤ u.index))

    -- Each target is ahead of the next one.
    abbrev pub IsRanked : List (Target n R) → Type 0
    IsRanked [] = Unit
    IsRanked (t ∷ []) = Unit
    IsRanked (t ∷ u ∷ us) = IsAhead t u × IsRanked (u ∷ us)

    ahead_of_precedes :
        (t u : Target n R) (r s : Amount)
        → (if at_most r s && at_most s r then leb (t.index) (u.index) else at_most r s) ≡ true
        → (at_most s r ≡ false)
          ⊎ ((at_most r s ≡ true) × (at_most s r ≡ true) × (t.index ≤ u.index))
    ahead_of_precedes t u r s h = elim (Bool-cases (at_most s r)) [
      | inl e ↦ elim (Bool-cases (at_most r s)) [
        | inl f ↦ inr (f, e, ground arith)
        | inr f ↦ absurd (ground arith)
      ]
      | inr e ↦ inl e
    ]

    normalized_fallback-rank : (t : Target n R) → normalized_fallback n R infinity t ≡ rank t
    unfolding normalized_fallback
    normalized_fallback-rank t = ground arith

    precedes-IsAhead : (t u : Target n R) → precedes n R infinity t u ≡ true → IsAhead t u
    unfolding precedes
    precedes-IsAhead t u h =
        subst
          (λ r.
            (at_most (rank u) r ≡ false)
            ⊎ ((at_most r (rank u) ≡ true) × (at_most (rank u) r ≡ true) × (t.index ≤ u.index)))
          (normalized_fallback-rank t)
          (subst
            (λ s.
              (at_most s (normalized_fallback n R infinity t) ≡ false)
              ⊎ ((at_most (normalized_fallback n R infinity t) s ≡ true)
                  × (at_most s (normalized_fallback n R infinity t) ≡ true)
                  × (t.index ≤ u.index)))
            (normalized_fallback-rank u)
            (ahead_of_precedes t u (normalized_fallback n R infinity t)
              (normalized_fallback n R infinity u) h))

    pub IsRanked-of_IsOrdered : (ts : List (Target n R)) → IsOrdered ts → IsRanked ts
    IsRanked-of_IsOrdered [] o = tt
    IsRanked-of_IsOrdered (t ∷ []) o = tt
    IsRanked-of_IsOrdered (t ∷ u ∷ us) (p, o) =
        (precedes-IsAhead t u p, IsRanked-of_IsOrdered (u ∷ us) o)

    All-insert_sorted :
        (P : Target n R → Type 0) (t : Target n R) (ts : List (Target n R))
        → P t
        → All P ts
        → All P (insert_sorted n R infinity t ts)
    unfolding insert_sorted
    All-insert_sorted P t [] p h = (p, tt)
    All-insert_sorted P t (u ∷ us) p (q, h) = elim (Bool-cases (precedes n R infinity t u)) [
      | inl e ↦ rw e (p, (q, h))
      | inr e ↦ rw e (q, All-insert_sorted P t us p h)
    ]

    insert_sorted-Distinct :
        (t : Target n R) (ts : List (Target n R))
        → DistinctIndices n R (t ∷ ts)
        → DistinctIndices n R (insert_sorted n R infinity t ts)
    unfolding insert_sorted
    insert_sorted-Distinct t [] d = d
    insert_sorted-Distinct t (u ∷ us) ((p, h), (q, d)) =
        elim (Bool-cases (precedes n R infinity t u)) [
          | inl e ↦ rw e ((p, h), (q, d))
          | inr e ↦
              let flipped : (t.index == u.index) ≡ false = ground arith in
              rw e (
                All-insert_sorted (λ (x : Target n R). (x.index == u.index) ≡ false) t us flipped q,
                insert_sorted-Distinct t us (h, d),
              )
        ]

    sorted-All :
        (P : Target n R → Type 0) (ts : List (Target n R))
        → All P ts
        → All P (sort_by_fallback n R infinity ts)
    unfolding sort_by_fallback
    sorted-All P [] h = tt
    sorted-All P (t ∷ ts) (p, h) =
        All-insert_sorted P t (sort_by_fallback n R infinity ts) p (sorted-All P ts h)

    pub sort_by_fallback-Distinct :
        (ts : List (Target n R))
        → DistinctIndices n R ts
        → DistinctIndices n R (sort_by_fallback n R infinity ts)
    unfolding sort_by_fallback
    sort_by_fallback-Distinct [] d = tt
    sort_by_fallback-Distinct (t ∷ ts) (h, d) =
        insert_sorted-Distinct t (sort_by_fallback n R infinity ts) (
          sorted-All (λ (x : Target n R). (x.index == t.index) ≡ false) ts h,
          sort_by_fallback-Distinct ts d,
        )
