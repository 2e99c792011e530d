-- ===== src/Ladder/Run/Descent.antt =====
-- The outer loop of the ladder: which rung answers the request.
use model_proxy_v.Base.{
  ℕ, suc, ◌+◌, ◌≡◌, refl, ap, ◌∙◌, ◌⊎◌, inl, inr, true, false, Bool-cases, List, [], ◌∷◌, ◌++◌,
  Option, none, some, Text, length, arith,
}
use model_proxy_v.Ladder.Descriptor.{Descriptor}
use model_proxy_v.Ladder.Outcome.{
  Answer, returned, threw, Outcome, outcome_of, is_retryable_outcome,
}
use model_proxy_v.Errors.{proxy, plain}
use model_proxy_v.Ladder.Run.{
  Run, Reply, replies, raises, max_retries, finish, start_rung, descend, run_target_ladder,
}
use model_proxy_v.Ladder.Run.Rung.{IsLast, rung-IsLast}

-- What the caller of the ladder gets of an answer.
abbrev pub reply_of : Answer → Reply
reply_of (returned r) = replies r
reply_of (threw t) = raises t

finish-outcome_of : (a : Answer) → finish (some (outcome_of a)) ≡ reply_of a
unfolding finish outcome_of
finish-outcome_of (returned r) = refl
finish-outcome_of (threw (proxy e)) = refl
finish-outcome_of (threw (plain e)) = ground arith

module _ (respond : ℕ → ℕ → Answer) (configured : Option ℕ) where
  -- A rung that fails in a way that is worth another target: its last attempt says so.
  pub record Fails (i : ℕ) (d : Descriptor) : Type 0 where
    pub outcome : Outcome
    pub last : IsLast (respond i) d 0 (max_retries configured d) outcome
    pub failed : outcome.ok ≡ false
    pub retryable : is_retryable_outcome outcome ≡ true

  abbrev pub AllFail : ℕ → List Descriptor → Type 0
  AllFail i [] = Unit
  AllFail i (d ∷ ds) = Fails i d × AllFail (suc i) ds

  -- The ladder from rung `i` on is answered by `reply`: every rung before `d` fails in a way worth
  -- another target; `reply` is the last answer on `d`; and `d` is the last rung, or that answer is
  -- a success, or it is a failure not worth another target.
  pub record IsServed (i : ℕ) (ds : List Descriptor) (reply : Reply) : Type 0 where
    pub before : List Descriptor
    pub d : Descriptor
    pub after : List Descriptor
    pub place : ds ≡ before ++ d ∷ after
    pub moved : AllFail i before
    pub index : ℕ
    pub counted : index ≡ i + length before
    pub outcome : Outcome
    pub last : IsLast (respond index) d 0 (max_retries configured d) outcome
    pub answer : reply ≡ reply_of (respond index last.last)
    pub stopped : (after ≡ []) ⊎ (outcome.ok ≡ true) ⊎ (is_retryable_outcome outcome ≡ false)

  module _ (base_otac : Option Text) where
    here :
        (i : ℕ) (d : Descriptor) (ds : List Descriptor) (r : Run)
        → let o = (start_rung respond configured base_otac i d r).0 in
          ((ds ≡ []) ⊎ (o.ok ≡ true) ⊎ (is_retryable_outcome o ≡ false))
          → IsServed i (d ∷ ds) (finish (some o))
    here i d ds r stop =
        let s = start_rung respond configured base_otac i d r in
        let l =
          rung-IsLast (respond i) i d (max_retries configured d)
            (record r { otac = elim d.otac [ none ↦ base_otac | some c ↦ some c ] }) in
        record {
          before = [];
          d = d;
          after = ds;
          place = refl;
          moved = tt;
          index = i;
          counted = omega arith;
          outcome = s.0;
          last = l;
          answer = ap (λ o. finish (some o)) l.outcome ∙ finish-outcome_of (respond i l.last);
          stopped = stop;
        }

    further :
        (i : ℕ) (d : Descriptor) (ds : List Descriptor) (reply : Reply)
        → Fails i d
        → IsServed (suc i) ds reply
        → IsServed i (d ∷ ds) reply
    further i d ds reply f s = record {
      before = d ∷ s.before;
      d = s.d;
      after = s.after;
      place = ap (◌∷◌ d) s.place;
      moved = (f, s.moved);
      index = s.index;
      counted = omega (arith, s.counted);
      outcome = s.outcome;
      last = s.last;
      answer = s.answer;
      stopped = s.stopped;
    }

    fails :
        (i : ℕ) (d : Descriptor) (r : Run)
        → let o = (start_rung respond configured base_otac i d r).0 in
          o.ok ≡ false → is_retryable_outcome o ≡ true → Fails i d
    fails i d r f t = record {
      outcome = (start_rung respond configured base_otac i d r).0;
      last =
          rung-IsLast (respond i) i d (max_retries configured d)
            (record r { otac = elim d.otac [ none ↦ base_otac | some c ↦ some c ] });
      failed = f;
      retryable = t;
    }

    -- One rung of the ladder, given what the rungs below it do.
    descend_step :
        (i : ℕ) (d : Descriptor) (ds : List Descriptor) (last : Option Outcome) (r : Run)
        → ((r' : Run)
            → let o = (start_rung respond configured base_otac i d r).0 in
              o.ok ≡ false
              → is_retryable_outcome o ≡ true
              → IsServed i (d ∷ ds) (descend respond configured base_otac (suc i) ds (some o) r').0)
        → IsServed i (d ∷ ds) (descend respond configured base_otac i (d ∷ ds) last r).0
    unfolding descend
    descend_step i d ds last r below =
        let o = (start_rung respond configured base_otac i d r).0 in
        elim (Bool-cases o.ok) [
          | inl good ↦ rw good (here i d ds r (inr (inl good)))
          | inr bad ↦ elim (Bool-cases (is_retryable_outcome o)) [
            | inr no_more ↦ rw (bad, no_more) (here i d ds r (inr (inr no_more)))
            | inl more ↦ rw (bad, more) (below _ bad more)
          ]
        ]

    descend-IsServed :
        (i : ℕ) (d : Descriptor) (ds : List Descriptor) (last : Option Outcome) (r : Run)
        → IsServed i (d ∷ ds) (descend respond configured base_otac i (d ∷ ds) last r).0
    unfolding descend
    descend-IsServed i d [] last r =
        descend_step i d [] last r (λ r' bad more. here i d [] r (inl refl))
    descend-IsServed i d (e ∷ ds) last r = descend_step i d (e ∷ ds) last r (λ r' bad more.
        further i d (e ∷ ds) _ (fails i d r bad more) (
          descend-IsServed (suc i) e ds (some (start_rung respond configured base_otac i d r).0)
            r'))

-- A ladder with at least one rung is answered by the last attempt on one of its rungs, returned or
-- thrown as it came. Every rung before that one failed with 429 or a status from 500 on; and the
-- rung is the last one, or it succeeded, or its failure is not worth another target.
pub run_target_ladder-IsServed :
    (respond : ℕ → ℕ → Answer) (configured : Option ℕ) (d : Descriptor) (ds : List Descriptor)
    (r : Run)
    → IsServed respond configured 0 (d ∷ ds) (run_target_ladder respond configured (d ∷ ds) r).0
unfolding run_target_ladder
run_target_ladder-IsServed respond configured d ds r =
    descend-IsServed respond configured r.otac 0 d ds none r
