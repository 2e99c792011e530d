-- ===== src/Composite/Order/Laws.antt =====
-- src/index.ts, orderCompositeCandidatesForRuntimeShare: the order of the attempts.
use model_proxy_v.Base.{
  suc, ◌≡◌, ◌∙◌, ◌⊎◌, refl, sym, ap, Bool, true, false, not, List, [], ◌∷◌, Option, none, some,
  Text, if◌then◌else◌, ◌==◌, ltb, keep, any, length, In, All, All-keep, arith, Bool-cases, inl, inr,
  some_injective, subst,
}
use model_proxy_v.Composite.Amounts.{Amounts, greater_of}
use model_proxy_v.Composite.Shares.{Shares}
use model_proxy_v.Composite.Order.{
  Candidate, find, total_weight, walk, head_of, select_weighted_composite_candidate, is_fallback,
  put_first, configured_of, effective_of, weight_beside, order_primary, is_decayed, order_fallbacks,
  order_composite_candidates_for_runtime_share,
}

In-if :
    {A : Type 0} (b : Bool) (a c : A) (cs : List A)
    → In a (if b then c ∷ cs else cs)
    → (a ≡ c) ⊎ In a cs
In-if true a c cs h = h
In-if false a c cs h = inr h

In-keep : {A : Type 0} (p : A → Bool) (a : A) (cs : List A) → In a (keep p cs) → In a cs
In-keep p a [] h = h
In-keep p a (c ∷ cs) h = elim (In-if (p c) a c (keep p cs) h) [
  | inl e ↦ inl e
  | inr i ↦ inr (In-keep p a cs i)
]

pub find-In : {A : Type 0} (p : A → Bool) (a : A) (cs : List A) → find p cs ≡ some a → In a cs
unfolding find
find-In p a [] h = cc
find-In p a (c ∷ cs) h = elim (Bool-cases (p c)) [
  | inl e ↦ inl (ground arith)
  | inr e ↦ inr (find-In p a cs (ground arith))
]

module _ (n : Amounts) where
  open n use {Amount, nought, at_most, plus, less, at_most_refl}

  -- No two candidates are one.
  abbrev pub DistinctIds : List (Candidate Amount) → Type 0
  DistinctIds [] = Unit
  DistinctIds (c ∷ cs) = All (λ (d : Candidate Amount). (d.id == c.id) ≡ false) cs × DistinctIds cs

  walk-In :
      (w : Candidate Amount → Amount) (r : Amount) (cs : List (Candidate Amount))
      (last : Option (Candidate Amount)) (c : Candidate Amount)
      → walk n w r cs last ≡ some c
      → In c cs ⊎ (last ≡ some c)
  unfolding walk
  walk-In w r [] last c h = inr h
  walk-In w r (d ∷ cs) last c h =
      elim (Bool-cases (at_most (less r (greater_of n nought (w d))) nought)) [
        | inl e ↦ inl (inl (ground arith))
        | inr e ↦
            elim (walk-In w (less r (greater_of n nought (w d))) cs (some d) c (ground arith)) [
              | inl i ↦ inl (inr i)
              | inr f ↦ inl (inl (sym (some_injective f)))
            ]
      ]

  head-In :
      (cs : List (Candidate Amount)) (c : Candidate Amount) (w : Candidate Amount → Amount)
      → head_of n w cs ≡ some c
      → In c cs
  head-In [] c w h = cc
  head-In (d ∷ cs) c w h = inl (sym (some_injective h))

  select-In :
      (w : Candidate Amount → Amount) (draw : Amount → Amount) (cs : List (Candidate Amount))
      (c : Candidate Amount)
      → select_weighted_composite_candidate n w draw cs ≡ some c
      → In c cs
  unfolding select_weighted_composite_candidate
  select-In w draw cs c h = elim (Bool-cases (at_most (total_weight n w nought cs) nought)) [
    | inl e ↦ head-In cs c w (ground arith)
    | inr e ↦ elim (walk-In w (draw (total_weight n w nought cs)) cs none c (ground arith)) [
      | inl i ↦ i
      | inr f ↦ absurd (ground arith)
    ]
  ]

  All-others :
      (c : Candidate Amount) (cs : List (Candidate Amount))
      → All (λ (d : Candidate Amount). (d.id == c.id) ≡ false) cs
      → keep (λ (d : Candidate Amount). not (d.id == c.id)) cs ≡ cs
  All-others c [] h = refl
  All-others c (d ∷ cs) (e, h) = ground (arith, All-others c cs h)

  ne_of_In :
      (c d : Candidate Amount) (cs : List (Candidate Amount))
      → All (λ (x : Candidate Amount). (x.id == d.id) ≡ false) cs
      → In c cs
      → (d.id == c.id) ≡ false
  ne_of_In c d [] h i = absurd i
  ne_of_In c d (x ∷ cs) (e, h) (inl f) = ground (arith, ap (λ (x : Candidate Amount). x.id) f)
  ne_of_In c d (x ∷ cs) (e, h) (inr i) = ne_of_In c d cs h i

  others_length :
      (c : Candidate Amount) (cs : List (Candidate Amount))
      → DistinctIds cs
      → In c cs
      → suc (length (keep (λ (d : Candidate Amount). not (d.id == c.id)) cs)) ≡ length cs
  others_length c [] d i = absurd i
  others_length c (x ∷ cs) (h, d) (inl e) =
      subst
        (λ (y : Candidate Amount).
          suc (length (keep (λ (d : Candidate Amount). not (d.id == y.id)) (x ∷ cs)))
          ≡ suc (length cs))
        (sym e) (ground (arith, All-others x cs h))
  others_length c (x ∷ cs) (h, d) (inr i) =
      ground (arith, ne_of_In c x cs h i, others_length c cs d i)

  -- The list is as before, or one of its candidates stands first and the others follow in their order.
  abbrev pub IsReordering : List (Candidate Amount) → List (Candidate Amount) → Type 0
  IsReordering cs out =
      ((out ≡ cs)
        ⊎ ((f : Candidate Amount) × In f cs
            × (out ≡ f ∷ keep (λ (c : Candidate Amount). not (c.id == f.id)) cs)))
      × (length out ≡ length cs)

  put_first-IsReordering :
      (cs : List (Candidate Amount)) (o : Option (Candidate Amount))
      → DistinctIds cs
      → ((c : Candidate Amount) → o ≡ some c → In c cs)
      → IsReordering cs (put_first n cs o)
  unfolding put_first
  put_first-IsReordering cs none d h = (inl refl, refl)
  put_first-IsReordering cs (some f) d h =
      (inr (f, h f refl, refl), others_length f cs d (h f refl))

  module _ (shares : Shares n) (alias : Text) (draw : Amount → Amount) where
    order_primary-IsReordering :
        (cs : List (Candidate Amount)) (p : Candidate Amount)
        → DistinctIds cs
        → IsReordering cs (order_primary n shares alias draw cs p)
    unfolding order_primary
    order_primary-IsReordering cs p d =
        elim (Bool-cases
          (at_most (configured_of n shares alias draw p) (effective_of n shares alias draw p))) [
            | inl e ↦ rw e (inl refl, refl)
            | inr e ↦ rw e (
                put_first-IsReordering cs _ d
                  (select-In (weight_beside n shares alias draw p) draw cs))
          ]

    order_fallbacks-IsReordering :
        (cs : List (Candidate Amount)) (p : Candidate Amount → Bool)
        → DistinctIds cs
        → IsReordering cs (order_fallbacks n shares alias draw cs (keep p cs))
    unfolding order_fallbacks
    order_fallbacks-IsReordering cs p d = elim (Bool-cases (ltb (length (keep p cs)) 2)) [
      | inl e ↦ rw e (inl refl, refl)
      | inr e ↦ elim (Bool-cases (any (is_decayed n shares alias draw) (keep p cs))) [
        | inl f ↦
            rw (e, f)
              (put_first-IsReordering cs _ d (λ c g.
                In-keep p c cs (select-In (effective_of n shares alias draw) draw (keep p cs) c g)))
        | inr f ↦ rw (e, f) (inl refl, refl)
      ]
    ]

    order_cases :
        (cs : List (Candidate Amount)) (o : Option (Candidate Amount))
        → find (λ c. (c.target_config).primary) cs ≡ o
        → order_composite_candidates_for_runtime_share n shares alias draw cs ≡ elim o [
          | some primary ↦ order_primary n shares alias draw cs primary
          | none ↦
              order_fallbacks n shares alias draw cs
                (keep (λ c. is_fallback n (c.target_config)) cs)
        ]
    unfolding order_composite_candidates_for_runtime_share
    order_cases cs o e = rw (← e) refl

    ordered-IsReordering :
        (cs : List (Candidate Amount)) (o : Option (Candidate Amount))
        → find (λ c. (c.target_config).primary) cs ≡ o
        → DistinctIds cs
        → IsReordering cs (order_composite_candidates_for_runtime_share n shares alias draw cs)
    ordered-IsReordering cs none e d =
        rw (order_cases cs none e)
          (order_fallbacks-IsReordering cs (λ c. is_fallback n (c.target_config)) d)
    ordered-IsReordering cs (some p) e d =
        rw (order_cases cs (some p) e) (order_primary-IsReordering cs p d)

    -- The effective share has not fallen under the configured one.
    abbrev pub IsHealthy : Candidate Amount → Type 0
    IsHealthy c =
        at_most (configured_of n shares alias draw c) (effective_of n shares alias draw c) ≡ true

    none_decayed :
        (cs : List (Candidate Amount))
        → All IsHealthy cs
        → any (is_decayed n shares alias draw) cs ≡ false
    unfolding is_decayed
    none_decayed [] h = refl
    none_decayed (c ∷ cs) (e, h) = rw e (none_decayed cs h)

    IsHealthy-at :
        (c : Candidate Amount) (cs : List (Candidate Amount))
        → In c cs
        → All IsHealthy cs
        → IsHealthy c
    IsHealthy-at c [] i h = absurd i
    IsHealthy-at c (d ∷ cs) (inl e) (k, h) = subst IsHealthy (sym e) k
    IsHealthy-at c (d ∷ cs) (inr i) (k, h) = IsHealthy-at c cs i h

    healthy_order :
        (cs : List (Candidate Amount)) (o : Option (Candidate Amount))
        → find (λ c. (c.target_config).primary) cs ≡ o
        → All IsHealthy cs
        → order_composite_candidates_for_runtime_share n shares alias draw cs ≡ cs
    unfolding order_primary order_fallbacks
    healthy_order cs none e h =
        order_cases cs none e
        ∙ elim (Bool-cases (ltb (length (keep (λ c. is_fallback n (c.target_config)) cs)) 2)) [
          | inl f ↦ rw f refl
          | inr f ↦
              rw
                (f, none_decayed _ (All-keep IsHealthy (λ c. is_fallback n (c.target_config)) cs h))
                refl
        ]
    healthy_order cs (some p) e h =
        order_cases cs (some p) e ∙ rw (IsHealthy-at p cs (find-In _ p cs e) h) refl

    -- For candidates that are all different, whatever was drawn: the order of the attempts is the given
    -- one, or one candidate is moved to the front and the others follow in their order. As many are
    -- tried as are given.
    pub order-IsReordering :
        (cs : List (Candidate Amount))
        → DistinctIds cs
        → IsReordering cs (order_composite_candidates_for_runtime_share n shares alias draw cs)
    order-IsReordering cs d =
        ordered-IsReordering cs (find (λ c. (c.target_config).primary) cs) refl d

    -- The order of the attempts is the given one, whatever was drawn, if no effective share has fallen
    -- under its configured share.
    pub order_healthy :
        (cs : List (Candidate Amount))
        → All IsHealthy cs
        → order_composite_candidates_for_runtime_share n shares alias draw cs ≡ cs
    order_healthy cs = healthy_order cs (find (λ c. (c.target_config).primary) cs) refl
