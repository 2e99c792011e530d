-- ===== src/Usage/Window/Sliding.antt =====
-- The window of getTokensInWindowSince: what leaves it stays in the sum.
use model_proxy_v.Base.{
  ℕ, ◌+◌, ◌-◌, ◌≤◌, true, List, [], ◌∷◌, ◌++◌, ltb, ◌==◌, drop, All, Bool-cases, ltb-false→le, ◌≡◌,
  refl, sym, ap, ◌∙◌, inl, inr, arith,
}
use model_proxy_v.Usage.Events.{Event, add_tokens}
use model_proxy_v.Usage.Events.Laws.{
  NotAfter, InTime, window_sum, window_sum_of_later, NotBefore-trans, early, first_since-early,
  all_tokens, add_tokens-all, all_tokens-drop-early, window_sum-shift_before, window_sum-append,
  InTime-append, InTime-shift_before,
}
use model_proxy_v.Usage.Window.{
  WindowSums, to_second, record_token_heatmap_event, absorb, scan_from, get_tokens_in_window_since,
  Call, use_tokens, ask_since, answers,
}

-- The frozen sum with the tokens from the last cutoff on.
abbrev pub known : WindowSums → ℕ
known w = w.frozen + window_sum w.cutoff w.events

early-zero : (es : List Event) → early 0 es ≡ 0
early-zero [] = refl
early-zero (e ∷ es) = ground arith

scan_from-early :
    (w : WindowSums) → InTime w.events → scan_from w ≡ drop (early w.cutoff w.events) w.events
unfolding scan_from
scan_from-early w s = elim (Bool-cases (ltb 0 w.cutoff)) [
  | inl warm ↦ simp warm (ap (λ n. drop n w.events) (first_since-early w.cutoff w.events s))
  | inr cold ↦
      let zero_cutoff : w.cutoff ≡ 0 = ground arith in
      simp cold (
        sym (
          ap (λ n. drop n w.events) (ap (λ c. early c w.events) zero_cutoff ∙ early-zero w.events)))
]

absorb-all :
    (cutoff frozen : ℕ) (es : List Event)
    → add_tokens (absorb cutoff frozen es).0 (absorb cutoff frozen es).1 ≡ frozen + all_tokens es
unfolding absorb
absorb-all cutoff frozen [] = add_tokens-all frozen []
absorb-all cutoff frozen (e ∷ es) = elim (Bool-cases (ltb e.ts cutoff)) [
  | inl before ↦ rw before (absorb-all cutoff (frozen + e.tokens) es ∙ omega arith)
  | inr here ↦ rw here (add_tokens-all frozen (e ∷ es))
]

absorb-window_sum :
    (cutoff frozen : ℕ) (es : List Event)
    → InTime es
    → (absorb cutoff frozen es).0 + window_sum cutoff es ≡ frozen + all_tokens es
unfolding absorb
absorb-window_sum cutoff frozen [] s = omega arith
absorb-window_sum cutoff frozen (e ∷ es) s = elim (Bool-cases (ltb e.ts cutoff)) [
  | inl before ↦ rw before (ground (arith, absorb-window_sum cutoff (frozen + e.tokens) es s.1))
  | inr here ↦
      let l : cutoff ≤ e.ts = ltb-false→le e.ts cutoff here in
      rw here (
        ap (λ n. frozen + n)
          (window_sum_of_later cutoff (e ∷ es) (l, NotBefore-trans cutoff e.ts es l s.0)))
]

-- What is absorbed is taken out of the later window, and what was absorbed before is not seen again.
absorb-drop-early :
    (last cutoff frozen : ℕ) (es : List Event)
    → InTime es
    → last ≤ cutoff
    → (absorb cutoff frozen (drop (early last es) es)).0 + window_sum cutoff es
      ≡ frozen + window_sum last es
unfolding absorb
absorb-drop-early last cutoff frozen [] s h = refl
absorb-drop-early last cutoff frozen (e ∷ es) s h = elim (Bool-cases (ltb e.ts last)) [
  | inl before ↦ rw before (ground (arith, absorb-drop-early last cutoff frozen es s.1))
  | inr here ↦
      let l : last ≤ e.ts = ltb-false→le e.ts last here in
      rw here (
        absorb-window_sum cutoff frozen (e ∷ es) s
        ∙ ap (λ n. frozen + n)
            (sym (window_sum_of_later last (e ∷ es) (l, NotBefore-trans last e.ts es l s.0))))
]

-- A query answers with all that is known, at any cutoff.
pub get_tokens_in_window_since-known :
    (cutoff : ℕ) (w : WindowSums)
    → InTime w.events
    → (get_tokens_in_window_since cutoff w).0 ≡ known w
unfolding get_tokens_in_window_since
get_tokens_in_window_since-known cutoff w s =
    absorb-all cutoff w.frozen (scan_from w)
    ∙ rw (scan_from-early w s, all_tokens-drop-early w.cutoff w.events s)

-- It keeps what is known, if the cutoff does not go back.
known-get_tokens_in_window_since :
    (cutoff : ℕ) (w : WindowSums)
    → InTime w.events
    → w.cutoff ≤ cutoff
    → known (get_tokens_in_window_since cutoff w).1 ≡ known w
unfolding get_tokens_in_window_since
known-get_tokens_in_window_since cutoff w s h =
    rw (scan_from-early w s) (absorb-drop-early w.cutoff cutoff w.frozen w.events s h)

module _ (retention values timestamp : ℕ) (w : WindowSums) where
  known-record_token_heatmap_event :
      to_second timestamp - retention ≤ w.cutoff
      → w.cutoff ≤ to_second timestamp
      → known (record_token_heatmap_event true retention values timestamp w) ≡ known w + values
  unfolding record_token_heatmap_event
  known-record_token_heatmap_event old new = elim (Bool-cases (values == 0)) [
    | inl none_used ↦ rw none_used (ground arith)
    | inr some_used ↦
        let e : Event = record { ts = to_second timestamp; tokens = values } in
        rw some_used (
          ground (
            arith,
            window_sum-shift_before (to_second timestamp - retention) w.cutoff (w.events ++ e ∷ [])
                old,
            window_sum-append w.cutoff w.events (e ∷ []),
          ))
  ]

  InTime-record_token_heatmap_event :
      InTime w.events
      → All (NotAfter (to_second timestamp)) w.events
      → InTime (record_token_heatmap_event true retention values timestamp w).events
  unfolding record_token_heatmap_event
  InTime-record_token_heatmap_event s h = elim (Bool-cases (values == 0)) [
    | inl none_used ↦ rw none_used s
    | inr some_used ↦
        let e : Event = record { ts = to_second timestamp; tokens = values } in
        rw some_used (
          InTime-shift_before (to_second timestamp - retention) (w.events ++ e ∷ [])
            (InTime-append w.events e s h))
  ]

-- Usage is recorded in the order of time and not before the last cutoff, nothing that is younger than
-- that cutoff is dropped for its age, and cutoffs do not go back.
abbrev pub Orderly : ℕ → WindowSums → List Call → Type 0
Orderly retention w [] = Unit
Orderly retention w (use_tokens values timestamp ∷ calls) =
    All (NotAfter (to_second timestamp)) w.events
    × (to_second timestamp - retention ≤ w.cutoff)
    × (w.cutoff ≤ to_second timestamp)
    × Orderly retention (record_token_heatmap_event true retention values timestamp w) calls
Orderly retention w (ask_since cutoff ∷ calls) =
    (w.cutoff ≤ cutoff) × Orderly retention (get_tokens_in_window_since cutoff w).1 calls

-- For each query the total of all tokens used up to it, with no window.
abbrev pub running_totals : ℕ → List Call → List ℕ
running_totals total [] = []
running_totals total (use_tokens values timestamp ∷ calls) = running_totals (total + values) calls
running_totals total (ask_since cutoff ∷ calls) = total ∷ running_totals total calls

InTime-get_tokens_in_window_since :
    (cutoff : ℕ) (w : WindowSums)
    → InTime w.events
    → InTime (get_tokens_in_window_since cutoff w).1.events
unfolding get_tokens_in_window_since
InTime-get_tokens_in_window_since cutoff w s = s

-- In an orderly run from events in the order of time, each query is answered by the total of all tokens
-- known at the start and used up to it, whatever its cutoff: no usage ever leaves the window.
pub answers-running_totals :
    (retention : ℕ) (w : WindowSums) (calls : List Call)
    → InTime w.events
    → Orderly retention w calls
    → answers retention w calls ≡ running_totals (known w) calls
unfolding answers
answers-running_totals retention w [] s o = refl
answers-running_totals retention w (use_tokens values timestamp ∷ calls) s o =
    answers-running_totals retention (record_token_heatmap_event true retention values timestamp w)
      calls (InTime-record_token_heatmap_event retention values timestamp w s o.0) o.3
    ∙ ap (λ total. running_totals total calls)
        (known-record_token_heatmap_event retention values timestamp w o.1 o.2)
answers-running_totals retention w (ask_since cutoff ∷ calls) s o =
    let rest : answers retention (get_tokens_in_window_since cutoff w).1 calls
        ≡ running_totals (known w) calls =
      answers-running_totals retention (get_tokens_in_window_since cutoff w).1 calls
        (InTime-get_tokens_in_window_since cutoff w s) o.1
      ∙ ap (λ total. running_totals total calls)
          (known-get_tokens_in_window_since cutoff w s o.0) in
    cc (get_tokens_in_window_since-known cutoff w s, rest)
