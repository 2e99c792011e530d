-- ===== src/Converters/Stream/Proper.antt =====
-- The events of a stream form a proper message of Claude.
use mathlib.Core.List.{Perm}
use mathlib.Core.List.Perm
use model_proxy_v.Base.{
  ℕ, suc, ◌≤◌, ◌<◌, Bool, true, false, not, ◌&&◌, ◌||◌, List, [], ◌∷◌, ◌++◌, append_assoc, Option,
  none, some, Text, All, Bool-cases, if◌then◌else◌, ◌≡◌, refl, subst, inl, inr, arith,
}
use model_proxy_v.Values.{is_filled, is_nonblank}
use model_proxy_v.Converters.Events.{
  StreamEvent, message_start, block_start, text_delta, thinking_delta, signature_delta, json_delta,
  block_stop, message_delta, message_stop, Stream, Step, then_step,
}
use model_proxy_v.Converters.Stream.{
  matches, think_at, think, send_matches, has_opening, send_rest, process_thinking_extraction,
  has_mark, on_content, on_reasoning,
}
use model_proxy_v.Converters.Stream.Calls.{started_of}

abbrev pub IsOpen : ℕ → List ℕ → Type 0
IsOpen i open_blocks = (others : List ℕ) × Perm open_blocks (i ∷ others)

-- The rest of a message with these open blocks: a block that starts has a larger index than each that is
-- open, a delta belongs to an open block of its index, a block that stops was open, and the message ends
-- with no block open, and with nothing behind its end.
abbrev pub IsProper : List ℕ → List StreamEvent → Type 0
IsProper open_blocks [] = ⊥
IsProper open_blocks (message_start ∷ es) = ⊥
IsProper open_blocks (block_start i k ∷ es) =
    All (λ j. j < i) open_blocks × IsProper (i ∷ open_blocks) es
IsProper open_blocks (text_delta i t ∷ es) = IsOpen i open_blocks × IsProper open_blocks es
IsProper open_blocks (thinking_delta i t ∷ es) = IsOpen i open_blocks × IsProper open_blocks es
IsProper open_blocks (signature_delta i t ∷ es) = IsOpen i open_blocks × IsProper open_blocks es
IsProper open_blocks (json_delta i t ∷ es) = IsOpen i open_blocks × IsProper open_blocks es
IsProper open_blocks (block_stop i ∷ es) =
    (others : List ℕ) × Perm open_blocks (i ∷ others) × IsProper others es
IsProper open_blocks (message_delta r ∷ es) = (open_blocks ≡ []) × IsProper [] es
IsProper open_blocks (message_stop ∷ es) = (open_blocks ≡ []) × (es ≡ [])

-- A message that begins.
abbrev pub IsMessage : List StreamEvent → Type 0
IsMessage (message_start ∷ es) = IsProper [] es
IsMessage _ = ⊥

abbrev pub with_thinking : Option ℕ → List ℕ → List ℕ
with_thinking none is = is
with_thinking (some i) is = i ∷ is

abbrev pub opened : Stream → List ℕ
opened s = 0 ∷ with_thinking s.thinking_index (started_of s.calls)

-- The blocks of the state are the open ones, and no index is beyond the last.
abbrev pub Inv : Stream → List ℕ → Type 0
Inv s open_blocks = Perm open_blocks (opened s) × All (λ j. j ≤ s.block_index) open_blocks

-- Events before a proper rest for the state that they lead to.
abbrev pub IsSound : Stream → Step → Type 0
IsSound s (es, t) =
    (open_blocks : List ℕ) (rest : List StreamEvent)
    → Inv s open_blocks
    → ((later : List ℕ) → Inv t later → IsProper later rest)
    → IsProper open_blocks (es ++ rest)

pub IsSound-then_step :
    (s : Stream) (step : Step) (next : Stream → Step)
    → IsSound s step
    → ((t : Stream) → IsSound t (next t))
    → IsSound s (then_step step next)
IsSound-then_step s (es, t) next p q = λ open_blocks rest i k.
    rw (append_assoc es (next t).0 rest)
      (p open_blocks ((next t).0 ++ rest) i (λ later j. q t later rest j k))

pub silent : (s : Stream) → IsSound s ([], s)
silent s = λ open_blocks rest i k. k open_blocks i

pub IsSound-if :
    (s : Stream) (b : Bool) (x y : Step)
    → (b ≡ true → IsSound s x)
    → (b ≡ false → IsSound s y)
    → IsSound s (if b then x else y)
IsSound-if s true x y p q = p refl
IsSound-if s false x y p q = q refl

pub IsSound-text : (s : Stream) (t : Text) → IsSound s (text_delta 0 t ∷ [], s)
IsSound-text s t = λ open_blocks rest i k.
    ((with_thinking s.thinking_index (started_of s.calls), i.0), k open_blocks i)

pub All-below :
    (n : ℕ) (is : List ℕ) → All (λ j. j ≤ n) is → All (λ j. j < suc n) is × All (λ j. j ≤ suc n) is
All-below n [] h = (tt, tt)
All-below n (i ∷ is) (l, h) = let (b, c) = All-below n is h in ((omega arith, b), (omega arith, c))

IsSound-think_at :
    (o : Option ℕ) (t : Text) (s : Stream) → s.thinking_index ≡ o → IsSound s (think_at o t s)
IsSound-think_at (some n) t s e = λ open_blocks rest i k.
    let p : Perm open_blocks (0 ∷ n ∷ started_of s.calls) =
      subst (λ x. Perm open_blocks (0 ∷ with_thinking x (started_of s.calls))) e i.0 in
    ((0 ∷ started_of s.calls, Perm.trans p (Perm.swap n 0 (started_of s.calls))), k open_blocks i)
IsSound-think_at none t s e = λ open_blocks rest i k.
    let p : Perm open_blocks (0 ∷ started_of s.calls) =
      subst (λ x. Perm open_blocks (0 ∷ with_thinking x (started_of s.calls))) e i.0 in
    let n : ℕ = suc s.block_index in
    let (below, within) = All-below s.block_index open_blocks i.1 in
    (
      below,
      (
        (open_blocks, Perm.rfl),
        k (n ∷ open_blocks) (
          Perm.trans (Perm.cons n p) (Perm.swap 0 n (started_of s.calls)),
          (omega arith, within),
        ),
      ),
    )

pub IsSound-think : (t : Text) (s : Stream) → IsSound s (think t s)
unfolding think
IsSound-think t s = IsSound-think_at s.thinking_index t s refl

pub IsSound-send_matches :
    (found : List (Text × Text)) (s : Stream) → IsSound s (send_matches found s)
unfolding send_matches
IsSound-send_matches [] s = silent s
IsSound-send_matches ((before, thought) ∷ found) s =
    IsSound-then_step s ((if is_nonblank before then text_delta 0 before ∷ [] else []), s)
      (λ s'. then_step (think thought s') (λ t. send_matches found t))
      (elim (Bool-cases (is_nonblank before)) [
        | inl e ↦ rw e (IsSound-text s before)
        | inr e ↦ rw e (silent s)
      ])
      (λ s'.
        IsSound-then_step s' (think thought s') (λ t. send_matches found t)
          (IsSound-think thought s') (λ t. IsSound-send_matches found t))

IsSound-send_rest : (rest : Text) (s : Stream) → IsSound s (send_rest rest s)
IsSound-send_rest rest s =
    IsSound-if s (is_filled rest && not (has_opening rest))
      (text_delta 0 rest ∷ [], record s { accumulated = [] }) ([], record s { accumulated = rest })
      (λ e open_blocks es i k. IsSound-text s rest open_blocks es i k)
      (λ e open_blocks es i k. k open_blocks i)

pub IsSound-on_content : (content : Text) (s : Stream) → IsSound s (on_content content s)
unfolding on_content process_thinking_extraction
IsSound-on_content content s = elim (Bool-cases (is_filled content)) [
  | inr empty ↦ rw empty (silent s)
  | inl filled ↦ elim (Bool-cases (has_mark content || is_filled s.accumulated)) [
    | inr plain ↦ rw (filled, plain) (IsSound-text s content)
    | inl marked ↦
        rw (filled, marked)
          (IsSound-then_step s (send_matches (matches 0 (s.accumulated ++ content)).0 s)
            (λ t. send_rest (matches 0 (s.accumulated ++ content)).1 t)
            (IsSound-send_matches (matches 0 (s.accumulated ++ content)).0 s)
            (λ t. IsSound-send_rest (matches 0 (s.accumulated ++ content)).1 t))
  ]
]

pub IsSound-on_reasoning : (reasoning : Text) (s : Stream) → IsSound s (on_reasoning reasoning s)
unfolding on_reasoning
IsSound-on_reasoning reasoning s = elim (Bool-cases (is_filled reasoning)) [
  | inl e ↦ rw e (λ open_blocks es i k.
      IsSound-think reasoning (record s { accumulated = s.accumulated ++ reasoning }) open_blocks es
        i k)
  | inr e ↦ rw e (silent s)
]
