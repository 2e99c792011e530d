-- ===== src/Ladder/Run/Rung.antt =====
-- The inner loop of the ladder: which attempt on a rung is the last one.
use native.Mathlib.Decide.{dec_le}
use model_proxy_v.Base.{
  ℕ, zero, suc, ◌+◌, ◌≤◌, ◌<◌, ◌≡◌, refl, subst, ◌⊎◌, inl, inr, true, false, ◌||◌, not, Bool-cases,
  arith,
}
use model_proxy_v.Ladder.Descriptor.{Descriptor}
use model_proxy_v.Ladder.Outcome.{Answer, Outcome, outcome_of}
use model_proxy_v.Ladder.Run.{Run, rung, listed}

-- The loop goes on after this outcome, if a retry is left.
abbrev pub Repeats : Descriptor → Outcome → Type 0
Repeats d o = (o.ok ≡ false) × (listed d.retry_on o.status ≡ true)

abbrev pub Stops : Descriptor → Outcome → Type 0
Stops d o = (o.ok ≡ true) ⊎ (listed d.retry_on o.status ≡ false)

-- The outcome `o` of a rung with attempts `n`, `n + 1`, …, of which `left` are retries.
pub record IsLast (respond : ℕ → Answer) (d : Descriptor) (n left : ℕ) (o : Outcome) : Type 0 where
  pub last : ℕ
  pub begun : n ≤ last
  pub within : last ≤ n + left
  pub outcome : o ≡ outcome_of (respond last)
  pub before : (k : ℕ) → n ≤ k → k < last → Repeats d (outcome_of (respond k))
  pub ends : (last ≡ n + left) ⊎ Stops d (outcome_of (respond last))

module _ (respond : ℕ → Answer) (i : ℕ) (d : Descriptor) where
  ends_at :
      (n left : ℕ)
      → ((n ≡ n + left) ⊎ Stops d (outcome_of (respond n)))
      → IsLast respond d n left (outcome_of (respond n))
  ends_at n left e = record {
    last = n;
    begun = omega arith;
    within = omega arith;
    outcome = refl;
    before = λ k h l. absurd (omega arith);
    ends = e;
  }

  before_next :
      (n m : ℕ)
      → Repeats d (outcome_of (respond n))
      → ((k : ℕ) → suc n ≤ k → k < m → Repeats d (outcome_of (respond k)))
      → (k : ℕ) → n ≤ k
      → k < m
      → Repeats d (outcome_of (respond k))
  before_next n m now later k h l = elim (dec_le (suc n) k) [
    | yes after ↦ later k after l
    | no here ↦ let e : n ≡ k = omega arith in subst (λ j. Repeats d (outcome_of (respond j))) e now
  ]

  goes_on :
      (n left : ℕ) (o : Outcome)
      → Repeats d (outcome_of (respond n))
      → IsLast respond d (suc n) left o
      → IsLast respond d n (suc left) o
  goes_on n left o now r = record {
    last = r.last;
    begun = omega (arith, r.begun);
    within = omega (arith, r.within);
    outcome = r.outcome;
    before = before_next n r.last now r.before;
    ends = elim r.ends [ inl e ↦ inl (omega arith) | inr e ↦ inr e ];
  }

  rung_from : (n left : ℕ) (r : Run) → IsLast respond d n left (rung respond i d n left r).0
  unfolding rung
  rung_from n zero r = ends_at n zero (inl (omega arith))
  rung_from n (suc left) r =
      let o = outcome_of (respond n) in
      elim (Bool-cases (o.ok || not (listed d.retry_on o.status))) [
        | inl stop ↦ rw stop (ends_at n (suc left) (inr (ground arith)))
        | inr more ↦ rw more (goes_on n left _ (ground arith) (rung_from (suc n) left _))
      ]

  -- On a rung with `max` retries the attempts are numbered 0, 1, … up to some `last ≤ max`, and the
  -- rung's outcome is that of the last. Every attempt before it failed with a status listed in
  -- `retry_on`; the last is number `max`, or succeeded, or its status is not listed.
  pub rung-IsLast : (max : ℕ) (r : Run) → IsLast respond d 0 max (rung respond i d 0 max r).0
  rung-IsLast max r = rung_from 0 max r
