-- ===== src/Conversation/Eviction.antt =====
-- The eviction loop: it ends, and drops no more than it must.
use model_proxy_v.Base.{
  ℕ, zero, suc, ◌-◌, ◌≤◌, ◌<◌, ◌≡◌, refl, sym, subst, ◌∙◌, inl, inr, Bool-cases, some_injective,
  true, false, List, [], ◌∷◌, none, some, length, drop, tail_of, arith, ltb, tests,
}
use model_proxy_v.Conversation.{
  Limit, at_most, below_zero, State, size, exceeds, evict_oldest, shrink,
}

-- The state without the first `n` entries of each map.
abbrev pub dropped : {Item Response : Type 0} → ℕ → State Item Response → State Item Response
dropped n s = record { store = drop n s.store; threads = drop n s.threads }

module _ {A : Type 0} where
  drop-tail_of : (n : ℕ) (xs : List A) → drop n (tail_of xs) ≡ drop (suc n) xs
  drop-tail_of zero [] = refl
  drop-tail_of zero (x ∷ xs) = refl
  drop-tail_of (suc n) [] = refl
  drop-tail_of (suc n) (x ∷ xs) = refl

  length-tail_of : (xs : List A) → length (tail_of xs) ≡ length xs - 1
  length-tail_of [] = omega arith
  length-tail_of (x ∷ xs) = omega arith

module _ {Item Response : Type 0} where
  pub size-evict_oldest-le : (s : State Item Response) → size (evict_oldest s) ≤ size s - 1
  unfolding evict_oldest
  size-evict_oldest-le s = omega (arith, length-tail_of s.store, length-tail_of s.threads)

  dropped-evict_oldest :
      (n : ℕ) (s : State Item Response) → dropped n (evict_oldest s) ≡ dropped (suc n) s
  unfolding evict_oldest
  dropped-evict_oldest n s = cc (drop-tail_of n s.store, drop-tail_of n s.threads)

  -- What a run of the loop gives back: it drops `n` entries from the front of both maps, ends
  -- within the limit, and was over the limit at every smaller number.
  pub record Shrunk (max : Limit) (s t : State Item Response) : Type 0 where
    pub rounds : ℕ
    pub result : t ≡ dropped rounds s
    pub within : exceeds max (size t) ≡ false
    pub needed : (k : ℕ) → k < rounds → exceeds max (size (dropped k s)) ≡ true

  Shrunk-here :
      (max : Limit) (s t : State Item Response)
      → exceeds max (size s) ≡ false
      → s ≡ t
      → Shrunk max s t
  Shrunk-here max s t fits e = record {
    rounds = 0;
    result = sym e;
    within = subst (λ u. exceeds max (size u) ≡ false) e fits;
    needed = λ k h. absurd (omega arith);
  }

  needed_next :
      (max : Limit) (s : State Item Response) (rounds : ℕ)
      → exceeds max (size s) ≡ true
      → ((k : ℕ) → k < rounds → exceeds max (size (dropped k (evict_oldest s))) ≡ true)
      → (k : ℕ) → k < suc rounds
      → exceeds max (size (dropped k s)) ≡ true
  needed_next max s rounds over more zero h = over
  needed_next max s rounds over more (suc k) h =
      subst (λ u. exceeds max (size u) ≡ true) (dropped-evict_oldest k s) (more k (omega arith))

  Shrunk-next :
      (max : Limit) (s t : State Item Response)
      → exceeds max (size s) ≡ true
      → Shrunk max (evict_oldest s) t
      → Shrunk max s t
  Shrunk-next max s t over r = record {
    rounds = suc r.rounds;
    result = r.result ∙ dropped-evict_oldest r.rounds s;
    within = r.within;
    needed = needed_next max s r.rounds over r.needed;
  }

  -- Whenever the eviction loop ends, its result is within the limit, and is the first state without the
  -- least number of oldest entries of both maps for which this is so.
  pub shrink-Shrunk :
      (max : Limit) (fuel : ℕ) (s t : State Item Response)
      → shrink max fuel s ≡ some t
      → Shrunk max s t
  unfolding shrink
  shrink-Shrunk max zero s t h = elim (Bool-cases (exceeds max (size s))) [
    | inl over ↦ cc (rw over at h)
    | inr fits ↦ Shrunk-here max s t fits (some_injective (rw fits at h))
  ]
  shrink-Shrunk max (suc fuel) s t h = elim (Bool-cases (exceeds max (size s))) [
    | inl over ↦ Shrunk-next max s t over (shrink-Shrunk max fuel (evict_oldest s) t (rw over at h))
    | inr fits ↦ Shrunk-here max s t fits (some_injective (rw fits at h))
  ]

  pub shrink_ends :
      (n fuel : ℕ) (s : State Item Response)
      → size s ≤ fuel
      → (t : State Item Response) × (shrink (at_most n) fuel s ≡ some t)
  unfolding shrink
  shrink_ends n zero s h = (s, ground arith)
  shrink_ends n (suc fuel) s h = elim (Bool-cases (ltb n (size s))) [
    | inl over ↦
        rw over (shrink_ends n fuel (evict_oldest s) (omega (tests, size-evict_oldest-le s)))
    | inr fits ↦ (s, rw fits)
  ]

  -- Under a negative limit no number of rounds ends the loop.
  pub shrink_below_zero :
      (n fuel : ℕ) (s : State Item Response) → shrink (below_zero n) fuel s ≡ none
  unfolding shrink
  shrink_below_zero n zero s = refl
  shrink_below_zero n (suc fuel) s = shrink_below_zero n fuel (evict_oldest s)
