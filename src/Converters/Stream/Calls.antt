-- ===== src/Converters/Stream/Calls.antt =====
-- The indices of the blocks that calls have started.
use mathlib.Core.List.{Perm}
use mathlib.Core.List.Perm
use model_proxy_v.Base.{
  ℕ, true, false, List, [], ◌∷◌, Bool-cases, if◌then◌else◌, ◌==◌, ltb, ◌≡◌, ap, inl, inr, arith,
}
use model_proxy_v.Converters.Events.{StreamCall}
use model_proxy_v.Converters.Stream.{call_at, put_call}

abbrev pub add_started : StreamCall → List ℕ → List ℕ
add_started c is = if c.started then c.claude_index ∷ is else is

abbrev pub started_of : List (ℕ × StreamCall) → List ℕ
started_of [] = []
started_of ((j, c) ∷ cs) = add_started c (started_of cs)

Perm-add_started :
    (c : StreamCall) (xs ys : List ℕ) → Perm xs ys → Perm (add_started c xs) (add_started c ys)
Perm-add_started c xs ys p = elim (Bool-cases c.started) [
  | inl e ↦ rw e (Perm.cons c.claude_index p)
  | inr e ↦ rw e p
]

add_started_swap :
    (c d : StreamCall) (xs : List ℕ)
    → Perm (add_started c (add_started d xs)) (add_started d (add_started c xs))
add_started_swap c d xs = elim (Bool-cases c.started) [
  | inl e ↦ elim (Bool-cases d.started) [
    | inl f ↦ rw (e, f) (Perm.swap d.claude_index c.claude_index xs)
    | inr f ↦ rw (e, f) Perm.rfl
  ]
  | inr e ↦ rw e Perm.rfl
]

-- A call whose block is not started yet is put.
pub started_of-put_fresh :
    (k : ℕ) (c : StreamCall) (cs : List (ℕ × StreamCall))
    → (call_at k cs).started ≡ false
    → Perm (started_of (put_call k c cs)) (add_started c (started_of cs))
unfolding call_at put_call
started_of-put_fresh k c [] h = Perm.rfl
started_of-put_fresh k c ((j, d) ∷ cs) h = elim (Bool-cases (j == k)) [
  | inl here ↦ let e : d.started ≡ false = ground arith in rw (here, e) Perm.rfl
  | inr other ↦ elim (Bool-cases (ltb k j)) [
    | inl before ↦ rw (other, before) Perm.rfl
    | inr behind ↦
        let later : (call_at k cs).started ≡ false = rw (other, behind) at h in
        rw (other, behind)
          (Perm.trans
            (Perm-add_started d (started_of (put_call k c cs)) (add_started c (started_of cs))
              (started_of-put_fresh k c cs later))
            (add_started_swap d c (started_of cs)))
  ]
]

-- A call whose block is started is put in the place of itself.
pub started_of-put_started :
    (k : ℕ) (c : StreamCall) (cs : List (ℕ × StreamCall))
    → (call_at k cs).started ≡ true
    → c.started ≡ true
    → c.claude_index ≡ (call_at k cs).claude_index
    → started_of (put_call k c cs) ≡ started_of cs
unfolding call_at put_call
started_of-put_started k c [] h i e = absurd (ground arith)
started_of-put_started k c ((j, d) ∷ cs) h i e = elim (Bool-cases (j == k)) [
  | inl here ↦
      let started : d.started ≡ true = rw here at h in
      let same_index : c.claude_index ≡ d.claude_index = rw here at e in
      rw (here, started, i) (ap (λ n. n ∷ started_of cs) same_index)
  | inr other ↦ elim (Bool-cases (ltb k j)) [
    | inl before ↦ absurd (let no : false ≡ true = rw (other, before) at h in ground arith)
    | inr behind ↦
        let later : (call_at k cs).started ≡ true = rw (other, behind) at h in
        let same_index : c.claude_index ≡ (call_at k cs).claude_index = rw (other, behind) at e in
        rw (other, behind) (ap (add_started d) (started_of-put_started k c cs later i same_index))
  ]
]

pub started_of-call_at :
    (k : ℕ) (cs : List (ℕ × StreamCall))
    → (call_at k cs).started ≡ true
    → (others : List ℕ) × Perm (started_of cs) ((call_at k cs).claude_index ∷ others)
unfolding call_at
started_of-call_at k [] h = absurd (ground arith)
started_of-call_at k ((j, d) ∷ cs) h = elim (Bool-cases (j == k)) [
  | inl here ↦
      let started : d.started ≡ true = rw here at h in (started_of cs, rw (here, started) Perm.rfl)
  | inr other ↦ elim (Bool-cases (ltb k j)) [
    | inl before ↦ absurd (let no : false ≡ true = rw (other, before) at h in ground arith)
    | inr behind ↦
        let later : (call_at k cs).started ≡ true = rw (other, behind) at h in
        let (others, p) = started_of-call_at k cs later in
        elim (Bool-cases d.started) [
          | inl e ↦ (
            d.claude_index ∷ others,
            rw (other, behind, e)
                (Perm.trans (Perm.cons d.claude_index p)
                  (Perm.swap (call_at k cs).claude_index d.claude_index others)),
          )
          | inr e ↦ (others, rw (other, behind, e) p)
        ]
  ]
]
