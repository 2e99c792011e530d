-- ===== src/Ladder/Run/Effort.antt =====
-- How much a run of the ladder does: attempts, waits and the failures that it records.
use model_proxy_v.Base.{ℕ, suc, ◌+◌, ◌≤◌, List, [], ◌∷◌, Option, All}
use model_proxy_v.Ladder.Descriptor.{Descriptor}
use model_proxy_v.Ladder.Outcome.{Outcome}
use model_proxy_v.Ladder.Run.{Run, Event, attempted, waited, max_retries}

-- The attempts in a trace.
abbrev pub attempts : List Event → ℕ
attempts [] = 0
attempts (attempted i n ∷ es) = suc (attempts es)
attempts (waited ms ∷ es) = attempts es

-- No wait is longer than two seconds.
abbrev pub IsShort : Event → Type 0
IsShort (attempted i n) = Unit
IsShort (waited ms) = ms ≤ 2000

-- What a part of the run adds: at most `most` attempts, and short waits only.
record Adds (most : ℕ) (r r' : Run) : Type 0 where
  few : attempts r'.trace ≤ attempts r.trace + most
  short : All IsShort r.trace → All IsShort r'.trace

module _ (configured : Option ℕ) where
  -- One attempt and the retries of each rung.
  abbrev pub most_attempts : List Descriptor → ℕ
  most_attempts [] = 0
  most_attempts (d ∷ ds) = suc (max_retries configured d) + most_attempts ds
