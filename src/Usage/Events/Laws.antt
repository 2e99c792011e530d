-- ===== src/Usage/Events/Laws.antt =====
-- A log in the order of time is searched and summed as a filter would do it.
use model_proxy_v.Base.{
  ℕ, zero, suc, ◌+◌, ◌/◌, ◌≤◌, ◌<◌, List, [], ◌∷◌, ◌++◌, if◌then◌else◌, ltb, leb, length, drop, All,
  All-append, Bool-cases, ltb→lt, ltb-false→le, ◌≡◌, refl, ◌∙◌, inl, inr, arith,
}
use model_proxy_v.Usage.Events.{
  Event, ts_at, search_loop, first_since, add_tokens, shift_before, sum_composite_events_since,
}

abbrev pub NotBefore : ℕ → Event → Type 0
NotBefore t e = t ≤ e.ts

abbrev pub NotAfter : ℕ → Event → Type 0
NotAfter t e = e.ts ≤ t

-- The log is in the order of time.
abbrev pub InTime : List Event → Type 0
InTime [] = Unit
InTime (e ∷ es) = All (NotBefore e.ts) es × InTime es

-- The tokens of the events that are not before the cutoff, wherever they stand.
abbrev pub window_sum : ℕ → List Event → ℕ
window_sum cutoff [] = 0
window_sum cutoff (e ∷ es) = (if leb cutoff e.ts then e.tokens else 0) + window_sum cutoff es

-- How many events at the front are before the cutoff.
abbrev pub early : ℕ → List Event → ℕ
early cutoff [] = 0
early cutoff (e ∷ es) = if ltb e.ts cutoff then suc (early cutoff es) else 0

early-le-length : (cutoff : ℕ) (es : List Event) → early cutoff es ≤ length es
early-le-length cutoff [] = omega arith
early-le-length cutoff (e ∷ es) = ground (arith, early-le-length cutoff es)

ts_at-early : (cutoff : ℕ) (es : List Event) (i : ℕ) → i < early cutoff es → ts_at es i < cutoff
ts_at-early cutoff [] i h = absurd (omega arith)
ts_at-early cutoff (e ∷ es) zero h = ground arith
ts_at-early cutoff (e ∷ es) (suc i) h = ground (arith, ts_at-early cutoff es i)

NotBefore-ts_at :
    (t : ℕ) (es : List Event) (i : ℕ) → All (NotBefore t) es → i < length es → t ≤ ts_at es i
NotBefore-ts_at t [] i h k = absurd (omega arith)
NotBefore-ts_at t (e ∷ es) zero h k = h.0
NotBefore-ts_at t (e ∷ es) (suc i) h k = NotBefore-ts_at t es i h.1 (omega arith)

ts_at-late :
    (cutoff : ℕ) (es : List Event) (i : ℕ)
    → InTime es
    → early cutoff es ≤ i
    → i < length es
    → cutoff ≤ ts_at es i
ts_at-late cutoff [] i s h k = absurd (omega arith)
ts_at-late cutoff (e ∷ es) zero s h k = ground arith
ts_at-late cutoff (e ∷ es) (suc i) s h k = elim (Bool-cases (ltb e.ts cutoff)) [
  | inl before ↦ ts_at-late cutoff es i s.1 (ground arith) (omega arith)
  | inr here ↦
      let l : cutoff ≤ e.ts = ltb-false→le e.ts cutoff here in
      let m : e.ts ≤ ts_at es i = NotBefore-ts_at e.ts es i s.0 (omega arith) in omega arith
]

search_loop-early :
    (fuel cutoff : ℕ) (es : List Event) (lo hi : ℕ)
    → InTime es
    → hi ≤ lo + fuel
    → lo ≤ early cutoff es
    → early cutoff es ≤ hi
    → hi ≤ length es
    → search_loop fuel cutoff es lo hi ≡ early cutoff es
unfolding search_loop
search_loop-early zero cutoff es lo hi s a b c d = omega arith
search_loop-early (suc fuel) cutoff es lo hi s a b c d = elim (Bool-cases (ltb lo hi)) [
  | inr done ↦ rw done (ground arith)
  | inl more ↦
      let mid : ℕ = (lo + hi) / 2 in
      let inside : (lo ≤ mid) × (mid < hi) = let m : lo < hi = ltb→lt lo hi more in omega arith in
      elim (Bool-cases (ltb (ts_at es mid) cutoff)) [
        | inl before ↦
            let far : ts_at es mid < cutoff = ltb→lt (ts_at es mid) cutoff before in
            let r : mid < early cutoff es = elim (Bool-cases (ltb mid (early cutoff es))) [
              | inl yes_lt ↦ ltb→lt mid (early cutoff es) yes_lt
              | inr no_lt ↦
                  let late : cutoff ≤ ts_at es mid =
                    ts_at-late cutoff es mid s (ltb-false→le mid (early cutoff es) no_lt)
                      (omega arith) in
                  absurd (omega arith)
            ] in
            rw (more, before)
              (search_loop-early fuel cutoff es (mid + 1) hi s (omega arith) (omega arith) c d)
        | inr here ↦
            let near : cutoff ≤ ts_at es mid = ltb-false→le (ts_at es mid) cutoff here in
            let r : early cutoff es ≤ mid = elim (Bool-cases (ltb mid (early cutoff es))) [
              | inl yes_lt ↦
                  let l : ts_at es mid < cutoff =
                    ts_at-early cutoff es mid (ltb→lt mid (early cutoff es) yes_lt) in
                  absurd (omega arith)
              | inr no_lt ↦ ltb-false→le mid (early cutoff es) no_lt
            ] in
            rw (more, here)
              (search_loop-early fuel cutoff es lo mid s (omega arith) b r (omega arith))
      ]
]

pub first_since-early :
    (cutoff : ℕ) (es : List Event) → InTime es → first_since cutoff es ≡ early cutoff es
unfolding first_since
first_since-early cutoff es s =
    search_loop-early (length es) cutoff es 0 (length es) s (omega arith) (omega arith)
      (early-le-length cutoff es) (omega arith)

-- The sum of all tokens.
abbrev pub all_tokens : List Event → ℕ
all_tokens [] = 0
all_tokens (e ∷ es) = e.tokens + all_tokens es

pub add_tokens-all : (total : ℕ) (es : List Event) → add_tokens total es ≡ total + all_tokens es
unfolding add_tokens
add_tokens-all total [] = omega arith
add_tokens-all total (e ∷ es) = omega (arith, add_tokens-all (total + e.tokens) es)

pub window_sum_of_later :
    (cutoff : ℕ) (es : List Event)
    → All (NotBefore cutoff) es
    → window_sum cutoff es ≡ all_tokens es
window_sum_of_later cutoff [] h = refl
window_sum_of_later cutoff (e ∷ es) h = ground (arith, window_sum_of_later cutoff es h.1)

pub NotBefore-trans :
    (s t : ℕ) (es : List Event) → s ≤ t → All (NotBefore t) es → All (NotBefore s) es
NotBefore-trans s t [] h k = tt
NotBefore-trans s t (e ∷ es) h k = (omega arith, NotBefore-trans s t es h k.1)

pub all_tokens-drop-early :
    (cutoff : ℕ) (es : List Event)
    → InTime es
    → all_tokens (drop (early cutoff es) es) ≡ window_sum cutoff es
all_tokens-drop-early cutoff [] s = refl
all_tokens-drop-early cutoff (e ∷ es) s = elim (Bool-cases (ltb e.ts cutoff)) [
  | inl before ↦ rw before (ground (arith, all_tokens-drop-early cutoff es s.1))
  | inr here ↦
      let l : cutoff ≤ e.ts = ltb-false→le e.ts cutoff here in
      rw here (ground (arith, window_sum_of_later cutoff es (NotBefore-trans cutoff e.ts es l s.0)))
]

-- For a log in the order of time, the search and the loop behind it add up the tokens of exactly the
-- events that are not before the cutoff.
pub sum_composite_events_since_lem :
    (es : List Event) (cutoff : ℕ)
    → InTime es
    → sum_composite_events_since es cutoff ≡ window_sum cutoff es
unfolding sum_composite_events_since
sum_composite_events_since_lem es cutoff s = rw (first_since-early cutoff es s) (
    add_tokens-all 0 (drop (early cutoff es) es) ∙ omega (arith, all_tokens-drop-early cutoff es s))

-- Removal at the front, up to a bound that is no later than the cutoff, changes no sum.
pub window_sum-shift_before :
    (bound cutoff : ℕ) (es : List Event)
    → bound ≤ cutoff
    → window_sum cutoff (shift_before bound es) ≡ window_sum cutoff es
unfolding shift_before
window_sum-shift_before bound cutoff [] h = refl
window_sum-shift_before bound cutoff (e ∷ es) h =
    ground (arith, window_sum-shift_before bound cutoff es h)

pub window_sum-append :
    (cutoff : ℕ) (es fs : List Event)
    → window_sum cutoff (es ++ fs) ≡ window_sum cutoff es + window_sum cutoff fs
window_sum-append cutoff [] fs = omega arith
window_sum-append cutoff (e ∷ es) fs = ground (arith, window_sum-append cutoff es fs)

pub InTime-append :
    (es : List Event) (e : Event) → InTime es → All (NotAfter e.ts) es → InTime (es ++ e ∷ [])
InTime-append [] e s h = (tt, tt)
InTime-append (d ∷ es) e s h =
    (All-append (NotBefore d.ts) es (e ∷ []) s.0 (h.0, tt), InTime-append es e s.1 h.1)

pub InTime-shift_before : (bound : ℕ) (es : List Event) → InTime es → InTime (shift_before bound es)
unfolding shift_before
InTime-shift_before bound [] s = tt
InTime-shift_before bound (e ∷ es) s = elim (Bool-cases (ltb e.ts bound)) [
  | inl before ↦ rw before (InTime-shift_before bound es s.1)
  | inr here ↦ rw here s
]
