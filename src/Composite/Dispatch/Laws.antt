-- ===== src/Composite/Dispatch/Laws.antt =====
-- src/index.ts, the loop over `compositeAttempts`: which attempt answers, and what is recorded.
use model_proxy_v.Base.{
  ℕ, zero, suc, ◌+◌, ◌≡◌, ◌∙◌, ◌⊎◌, ◌≤◌, refl, sym, List, [], ◌∷◌, ◌++◌, Option, none, some, Text,
  if◌then◌else◌, length, take, arith, inl, inr, append_assoc, append-nil, subst,
}
use model_proxy_v.Values.{is_filled}
use model_proxy_v.Errors.{ProxyError, Thrown}
use model_proxy_v.Ladder.Outcome.{Response, Answer, returned, threw}
use model_proxy_v.Ladder.Run.{Reply, replies, raises}
use model_proxy_v.Composite.Amounts.{Amounts}
use model_proxy_v.Composite.Dispatch.{
  Attempt, State, ranked_target, on_success, classified, record_failure, penalize, on_failure,
  dispatch,
}

module _ (n : Amounts) (alias : Text) where
  open n use {Amount}

  -- The models of the attempts that failed.
  abbrev pub models : List (Attempt Amount) → List Text
  models [] = []
  models (a ∷ as') = if is_filled (a.model_id) then a.model_id ∷ models as' else models as'

  penalize-failures :
      (e : Option ProxyError) (t : Option (Text × Amount)) (s : State n alias)
      → (penalize n alias e t s).failures ≡ s.failures
  unfolding penalize
  penalize-failures none t s = refl
  penalize-failures (some e) none s = refl
  penalize-failures (some e) (some (x, y)) s = refl

  failure-failures :
      (a : Attempt Amount) (e : Thrown) (s : State n alias)
      → (on_failure n alias a e s).failures ≡ s.failures ++ models (a ∷ [])
  unfolding on_failure record_failure
  failure-failures a e s =
      penalize-failures (classified e) (ranked_target n alias a) (record_failure n alias a s)
      ∙ ground (arith, append-nil (s.failures))

  success-failures :
      (a : Attempt Amount) (s : State n alias) → (on_success n alias a s).failures ≡ s.failures
  unfolding on_success
  success-failures a s = ground arith

  -- The attempts `i` to `i + j - 1` threw.
  abbrev pub Threw : (ℕ → Answer) → ℕ → ℕ → Type 0
  Threw run i zero = Unit
  Threw run i (suc j) = ((e : Thrown) × (run i ≡ threw e)) × Threw run (suc i) j

  -- The loop over `attempts`, from attempt `i` on, ends at attempt `i + j`: it is the first that
  -- returns and its response is the reply, or it is the last and its error is raised. The models
  -- recorded as failed are those of the attempts that threw, in their order.
  abbrev pub EndsAt :
      (ℕ → Answer) → ℕ → List (Attempt Amount) → List Text → Reply → List Text → ℕ → Type 0
  EndsAt run i attempts before reply after j =
      ((r : Response) × (run (i + j) ≡ returned r)
        × (reply ≡ replies r)
        × (suc j ≤ length attempts)
        × (after ≡ before ++ models (take j attempts)))
      ⊎ ((e : Thrown) × (run (i + j) ≡ threw e)
          × (reply ≡ raises e)
          × (suc j ≡ length attempts)
          × (after ≡ before ++ models attempts))

  abbrev pub Ends :
      (ℕ → Answer) → ℕ → List (Attempt Amount) → List Text → Reply × State n alias → Type 0
  Ends run i attempts before out =
      (j : ℕ) × Threw run i j × EndsAt run i attempts before (out.0) ((out.1).failures) j

  pub dispatch_returned :
      (run : ℕ → Answer) (i : ℕ) (a : Attempt Amount) (rest : List (Attempt Amount))
      (s : State n alias) (r : Response)
      → run i ≡ returned r
      → dispatch n alias run i a rest s ≡ (replies r, on_success n alias a s)
  unfolding dispatch
  dispatch_returned run i a [] s r e = ground arith
  dispatch_returned run i a (b ∷ rest) s r e = ground arith

  pub dispatch_last :
      (run : ℕ → Answer) (i : ℕ) (a : Attempt Amount) (s : State n alias) (e : Thrown)
      → run i ≡ threw e
      → dispatch n alias run i a [] s ≡ (raises e, on_failure n alias a e s)
  unfolding dispatch
  dispatch_last run i a s e h = ground arith

  pub dispatch_next :
      (run : ℕ → Answer) (i : ℕ) (a b : Attempt Amount) (rest : List (Attempt Amount))
      (s : State n alias) (e : Thrown)
      → run i ≡ threw e
      → dispatch n alias run i a (b ∷ rest) s
        ≡ dispatch n alias run (suc i) b rest (on_failure n alias a e s)
  unfolding dispatch
  dispatch_next run i a b rest s e h = ground arith

  models-cons :
      (a : Attempt Amount) (rest : List (Attempt Amount)) (before : List Text)
      → (before ++ models (a ∷ [])) ++ models rest ≡ before ++ models (a ∷ rest)
  models-cons a rest before =
      ground (arith, append_assoc before (models (a ∷ [])) (models rest), append-nil before)

  later-Ends :
      (run : ℕ → Answer) (i : ℕ) (a : Attempt Amount) (rest : List (Attempt Amount))
      (before : List Text) (out : Reply × State n alias) (e : Thrown)
      → run i ≡ threw e
      → Ends run (suc i) rest (before ++ models (a ∷ [])) out
      → Ends run i (a ∷ rest) before out
  later-Ends run i a rest before out e h (j, t, inl (r, hr, reply, short, f)) =
      let at_j : i + suc j ≡ suc i + j = omega arith in
      (
        suc j,
        ((e, h), t),
        inl (r, rw at_j hr, reply, omega arith, f ∙ models-cons a (take j rest) before),
      )
  later-Ends run i a rest before out e h (j, t, inr (e', he, reply, last, f)) =
      let at_j : i + suc j ≡ suc i + j = omega arith in
      (suc j, ((e, h), t), inr (e', rw at_j he, reply, omega arith, f ∙ models-cons a rest before))

  pub Answer-cases :
      (o : Answer) → ((r : Response) × (o ≡ returned r)) ⊎ ((e : Thrown) × (o ≡ threw e))
  Answer-cases (returned r) = inl (r, refl)
  Answer-cases (threw e) = inr (e, refl)

  add_nought : (i : ℕ) → i + 0 ≡ i
  add_nought i = omega arith

  returned-Ends :
      (run : ℕ → Answer) (i : ℕ) (a : Attempt Amount) (rest : List (Attempt Amount))
      (s : State n alias) (r : Response)
      → run i ≡ returned r
      → Ends run i (a ∷ rest) (s.failures) (dispatch n alias run i a rest s)
  returned-Ends run i a rest s r e = rw (dispatch_returned run i a rest s r e) (
    0,
    tt,
    inl (
      r,
      rw (add_nought i) e,
      refl,
      omega arith,
      success-failures a s ∙ sym (append-nil (s.failures)),
    ),
  )

  -- The loop over the attempts ends at one of them. Those before it threw. It is the first that
  -- returns, and the reply is its response, or it is the last, and its error is raised. The calls of
  -- recordModelFailedRequest are those for the attempts that threw, in their order, as far as they
  -- have a model.
  pub dispatch-Ends :
      (run : ℕ → Answer) (i : ℕ) (a : Attempt Amount) (rest : List (Attempt Amount))
      (s : State n alias)
      → Ends run i (a ∷ rest) (s.failures) (dispatch n alias run i a rest s)
  dispatch-Ends run i a [] s = elim (Answer-cases (run i)) [
    | inl (r, e) ↦ returned-Ends run i a [] s r e
    | inr (x, e) ↦
        rw (dispatch_last run i a s x e)
          (0, tt, inr (x, rw (add_nought i) e, refl, refl, failure-failures a x s))
  ]
  dispatch-Ends run i a (b ∷ rest) s = elim (Answer-cases (run i)) [
    | inl (r, e) ↦ returned-Ends run i a (b ∷ rest) s r e
    | inr (x, e) ↦ rw (dispatch_next run i a b rest s x e) (
        later-Ends run i a (b ∷ rest) (s.failures)
          (dispatch n alias run (suc i) b rest (on_failure n alias a x s)) x e
          (subst
            (λ f.
              Ends run (suc i) (b ∷ rest) f
                (dispatch n alias run (suc i) b rest (on_failure n alias a x s)))
            (failure-failures a x s) (dispatch-Ends run (suc i) b rest (on_failure n alias a x s))))
  ]
