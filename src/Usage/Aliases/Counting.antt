-- ===== src/Usage/Aliases/Counting.antt =====
-- Token usage is counted in the window of exactly the aliases that have a limit and list the model.
use model_proxy_v.Base.{
  ℕ, ◌+◌, ◌-◌, ◌≤◌, Bool, true, false, ◌&&◌, List, [], ◌∷◌, ◌++◌, Option, none, some, Text, same,
  same_refl, same→eq, same-false_sym, includes, if◌then◌else◌, any, is_some, Bool-cases,
  Option-cases, ◌≡◌, sym, ap, ◌∙◌, subst, inl, inr, arith,
}
use model_proxy_v.Base.Table.{get, get-set}
use model_proxy_v.Usage.Events.{Event}
use model_proxy_v.Usage.Events.Laws.{window_sum, window_sum-shift_before, window_sum-append}
use model_proxy_v.Usage.Aliases.{
  composite_retention_ms, States, CompositeAliasState, events_of, push_event,
  record_composite_token_usage, record_for_aliases, AliasTargets, add_aliases,
  update_composite_alias_reverse_map, record_model_usage_for_composites,
}
use model_proxy_v.Usage.Aliases.Reverse.{
  aliases_for, limits, includes-add_aliases, NoRepeat, AllSets-add_aliases,
}

-- What a use does to the state of an alias.
abbrev pushed : ℕ → ℕ → Option CompositeAliasState → Option CompositeAliasState
pushed now tokens none = none
pushed now tokens (some s) = some (record s { events = push_event now tokens s.events })

get-record_composite_token_usage :
    (now : ℕ) (a b : Text) (tokens : ℕ) (states : States)
    → get a (record_composite_token_usage true now b tokens states)
      ≡ (if same b a then pushed now tokens (get a states) else get a states)
unfolding record_composite_token_usage
get-record_composite_token_usage now a b tokens states = elim (Option-cases (get b states)) [
  | inl missing ↦ rw missing (elim (Bool-cases (same b a)) [
    | inr other ↦ rw other
    | inl here ↦ rw here (
        let e : get a states ≡ none = ap (λ k. get k states) (sym (same→eq b a here)) ∙ missing in
        rw e)
  ])
  | inr (s, found) ↦ rw found (
      get-set b a (record s { events = push_event now tokens s.events }) states
      ∙ (elim (Bool-cases (same b a)) [
        | inr other ↦ rw other
        | inl here ↦
            let e : get a states ≡ some s =
              ap (λ k. get k states) (sym (same→eq b a here)) ∙ found in
            rw (here, e)
      ]))
]

-- The tokens in the window of an alias.
abbrev pub in_window : Text → ℕ → States → ℕ
in_window a cutoff states = window_sum cutoff (events_of (get a states))

abbrev pub is_limited : Text → States → Bool
is_limited a states = is_some (get a states)

window_sum-push_event :
    (now tokens cutoff : ℕ) (es : List Event)
    → now - composite_retention_ms ≤ cutoff
    → cutoff ≤ now
    → window_sum cutoff (push_event now tokens es) ≡ window_sum cutoff es + tokens
window_sum-push_event now tokens cutoff es old new =
    let e : Event = record { ts = now; tokens = tokens } in
    ground (
      arith,
      window_sum-shift_before (now - composite_retention_ms) cutoff (es ++ e ∷ []) old,
      window_sum-append cutoff es (e ∷ []),
    )

-- What the loop adds for the alias.
abbrev pub counted : Text → List Text → ℕ → States → ℕ
counted a aliases tokens states = if includes a aliases && is_limited a states then tokens else 0

module _ (now : Text → ℕ) (tokens cutoff : ℕ) (a : Text) where
  module _ (old : now a - composite_retention_ms ≤ cutoff) (new : cutoff ≤ now a) where
    in_window-here :
        (states : States)
        → in_window a cutoff (record_composite_token_usage true (now a) a tokens states)
          ≡ in_window a cutoff states + (if is_limited a states then tokens else 0)
    in_window-here states =
        rw (get-record_composite_token_usage (now a) a a tokens states, same_refl a)
          (elim (Option-cases (get a states)) [
            | inl missing ↦ rw missing
            | inr (s, found) ↦
                rw found (window_sum-push_event (now a) tokens cutoff s.events old new)
          ])

    in_window-record_for_aliases :
        (aliases : List Text) (states : States)
        → NoRepeat aliases
        → in_window a cutoff (record_for_aliases true now aliases tokens states)
          ≡ in_window a cutoff states + counted a aliases tokens states
    unfolding record_for_aliases
    in_window-record_for_aliases [] states r = omega arith
    in_window-record_for_aliases (b ∷ others) states r =
        let next : States = record_composite_token_usage true (now b) b tokens states in
        in_window-record_for_aliases others next r.1 ∙ elim (Bool-cases (same a b)) [
          | inr other ↦
              let kept : get a next ≡ get a states =
                get-record_composite_token_usage (now b) a b tokens states
                ∙ rw (same-false_sym a b other) in
              rw (other, kept)
          | inl here ↦
              let e : a ≡ b = same→eq a b here in
              let once : includes a others ≡ false =
                subst (λ k. includes k others ≡ false) (sym e) r.0 in
              let counted_once : in_window a cutoff next
                  ≡ in_window a cutoff states + (if is_limited a states then tokens else 0) =
                subst
                  (λ k.
                    in_window a cutoff (record_composite_token_usage true (now k) k tokens states)
                    ≡ in_window a cutoff states + (if is_limited a states then tokens else 0))
                  e (in_window-here states) in
              rw (once, here) (ground (arith, counted_once))
        ]

-- Behind an update of the reverse map, a recorded use of a model adds its tokens once to the window of
-- each alias that has a token limit, lists the model among its targets and has a state, and nothing to
-- any other; the window begins within the retention time, and not in the future.
pub in_window-record_model_usage :
    (now : Text → ℕ) (tokens cutoff : ℕ) (a model : Text) (ts : List AliasTargets) (states : States)
    → now a - composite_retention_ms ≤ cutoff
    → cutoff ≤ now a
    → in_window a cutoff (
        record_model_usage_for_composites true now
          (update_composite_alias_reverse_map ts)
          model
          tokens
          states)
      ≡ in_window a cutoff states
        + (if any (limits a model) ts && is_limited a states then tokens else 0)
unfolding record_model_usage_for_composites update_composite_alias_reverse_map get
in_window-record_model_usage now tokens cutoff a model ts states old new =
    in_window-record_for_aliases now tokens cutoff a old new (aliases_for model (add_aliases ts []))
      states (AllSets-add_aliases ts [] (λ k. tt) model)
    ∙ rw (includes-add_aliases a model ts [])
