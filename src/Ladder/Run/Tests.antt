-- ===== src/Ladder/Run/Tests.antt =====
-- Runs of the ladder on concrete answers.
use model_proxy_v.Base.{ℕ, zero, suc, ◌≡◌, refl, false, [], ◌∷◌, none, some, codes}
use model_proxy_v.Values.{whole}
use model_proxy_v.Ladder.Descriptor.{Descriptor}
use model_proxy_v.Ladder.Outcome.{
  Response, absent, returned, Answer, outcome_of, is_retryable_outcome,
}
use model_proxy_v.Ladder.Run.{Run, attempted, waited, replies, rung, run_target_ladder}
use model_proxy_v.Ladder.Run.Descent.{IsServed, run_target_ladder-IsServed}

abbrev first : Descriptor
first = record {
  target = codes "a";
  base = codes "https://a";
  mode = none;
  key = none;
  otac = some (codes "code");
  transforms = none;
  timeout = none;
  retry_on = some (whole 503 ∷ []);
  retry = some 1;
}

abbrev second : Descriptor
second = record first { target = codes "b"; otac = none; retry = none }

abbrev answer : ℕ → Response
answer status = record { status = status; retry_after = absent; body = [] }

-- Rung 0 is down, rung 1 answers at its second attempt.
abbrev world : ℕ → ℕ → Answer
world zero n = returned (answer 503)
world (suc i) zero = returned (answer 503)
world (suc i) (suc n) = returned (answer 200)

abbrev fresh : Run
fresh = record {
  otac = none;
  failed_model = none;
  failure_recorded = false;
  failures = [];
  trace = [];
}

served : (run_target_ladder world none (first ∷ second ∷ []) fresh).0 ≡ replies (answer 200)
unfolding run_target_ladder rung outcome_of is_retryable_outcome
served = refl

traced :
    (run_target_ladder world none (first ∷ second ∷ []) fresh).1.trace
    ≡ attempted 0 0 ∷ waited 250 ∷ attempted 0 1 ∷ attempted 1 0 ∷ waited 250 ∷ attempted 1 1 ∷ []
unfolding run_target_ladder rung outcome_of is_retryable_outcome
traced = refl

run_target_ladder-IsServed_example :
    IsServed world none 0
      (first ∷ second ∷ [])
      (run_target_ladder world none (first ∷ second ∷ []) fresh).0
run_target_ladder-IsServed_example = run_target_ladder-IsServed world none first (second ∷ []) fresh
