-- ===== src/Usage/Aliases/Reverse.antt =====
-- The map from models to aliases: an alias stands there, once, for exactly its targets.
use model_proxy_v.Base.{
  Bool, true, false, ◌&&◌, ◌||◌, List, [], ◌∷◌, ◌++◌, Text, same, same_iff, same→eq, same-false_sym,
  includes, if◌then◌else◌, any, or_else, Bool-cases, ◌≡◌, refl, sym, ◌∙◌, subst, inl, inr, arith,
}
use model_proxy_v.Base.Table.{get, set, get-set}
use model_proxy_v.Usage.Aliases.{
  AliasesOf, AliasTargets, add_member, add_alias, add_aliases, target_keys,
  update_composite_alias_reverse_map,
}

includes-append :
    (a : Text) (xs ys : List Text) → includes a (xs ++ ys) ≡ (includes a xs || includes a ys)
includes-append a [] ys = refl
includes-append a (x ∷ xs) ys = ground (arith, includes-append a xs ys)

includes-add_member :
    (a b : Text) (members : List Text)
    → includes a (add_member b members) ≡ (includes a members || same a b)
includes-add_member a b members = elim (Bool-cases (includes b members)) [
  | inr new ↦ rw new (includes-append a members (b ∷ []) ∙ ground arith)
  | inl old ↦ rw old (elim (Bool-cases (same a b)) [
    | inr other ↦ rw other (ground arith)
    | inl here ↦
        let there : includes a members ≡ true =
          subst (λ k. includes k members ≡ true) (sym (same→eq a b here)) old in
        rw (here, there)
  ])
]

abbrev pub aliases_for : Text → AliasesOf → List Text
aliases_for model m = or_else (get model m) []

aliases_for-set :
    (model k : Text) (v : List Text) (m : AliasesOf)
    → aliases_for model (set k v m) ≡ (if same k model then v else aliases_for model m)
aliases_for-set model k v m = rw (get-set k model v m) (ground arith)

includes-add_alias :
    (a model alias : Text) (models : List Text) (m : AliasesOf)
    → includes a (aliases_for model (add_alias alias models m))
      ≡ (includes a (aliases_for model m) || (same a alias && includes model models))
unfolding add_alias
includes-add_alias a model alias [] m = ground arith
includes-add_alias a model alias (k ∷ models) m =
    let grown : List Text = add_member alias (aliases_for k m) in
    includes-add_alias a model alias models (set k grown m)
    ∙ rw (aliases_for-set model k grown m) (elim (Bool-cases (same k model)) [
      | inr other ↦ rw (other, same-false_sym k model other)
      | inl here ↦
          let e : k ≡ model = same→eq k model here in
          rw (here, (same_iff model k).1 (sym e), includes-add_member a alias (aliases_for k m), e)
            (ground arith)
    ])

-- The alias limits tokens and has the model among its targets.
abbrev pub limits : Text → Text → AliasTargets → Bool
limits a model t = t.has_token_limit && (same a t.alias && includes model (target_keys t))

pub includes-add_aliases :
    (a model : Text) (ts : List AliasTargets) (m : AliasesOf)
    → includes a (aliases_for model (add_aliases ts m))
      ≡ (includes a (aliases_for model m) || any (limits a model) ts)
unfolding add_aliases
includes-add_aliases a model [] m = ground arith
includes-add_aliases a model (t ∷ ts) m = elim (Bool-cases t.has_token_limit) [
  | inr free ↦ rw free (includes-add_aliases a model ts m)
  | inl limited ↦ rw limited (
      includes-add_aliases a model ts (add_alias t.alias (target_keys t) m)
      ∙ rw (includes-add_alias a model t.alias (target_keys t) m) (ground arith))
]

pub includes-update_composite_alias_reverse_map :
    (a model : Text) (ts : List AliasTargets)
    → includes a (or_else (get model (update_composite_alias_reverse_map ts)) [])
      ≡ any (limits a model) ts
unfolding update_composite_alias_reverse_map get
includes-update_composite_alias_reverse_map a model ts = includes-add_aliases a model ts []

-- No alias stands twice, as in a `Set`.
abbrev pub NoRepeat : List Text → Type 0
NoRepeat [] = Unit
NoRepeat (x ∷ xs) = (includes x xs ≡ false) × NoRepeat xs

NoRepeat-append :
    (a : Text) (members : List Text)
    → NoRepeat members
    → includes a members ≡ false
    → NoRepeat (members ++ a ∷ [])
NoRepeat-append a [] r h = (refl, tt)
NoRepeat-append a (m ∷ ms) r h = elim (Bool-cases (same a m)) [
  | inl here ↦ absurd (ground arith)
  | inr other ↦ (
    includes-append m ms (a ∷ []) ∙ rw (r.0, same-false_sym a m other),
    NoRepeat-append a ms r.1 (ground arith),
  )
]

NoRepeat-add_member :
    (a : Text) (members : List Text) → NoRepeat members → NoRepeat (add_member a members)
NoRepeat-add_member a members r = elim (Bool-cases (includes a members)) [
  | inl old ↦ rw old r
  | inr new ↦ rw new (NoRepeat-append a members r new)
]

abbrev pub AllSets : AliasesOf → Type 0
AllSets m = (model : Text) → NoRepeat (aliases_for model m)

AllSets-add_alias :
    (alias : Text) (models : List Text) (m : AliasesOf)
    → AllSets m
    → AllSets (add_alias alias models m)
unfolding add_alias
AllSets-add_alias alias [] m h = h
AllSets-add_alias alias (k ∷ models) m h =
    AllSets-add_alias alias models (set k (add_member alias (aliases_for k m)) m) (λ model.
      rw (aliases_for-set model k (add_member alias (aliases_for k m)) m)
        (elim (Bool-cases (same k model)) [
          | inl here ↦ rw here (NoRepeat-add_member alias (aliases_for k m) (h k))
          | inr other ↦ rw other (h model)
        ]))

pub AllSets-add_aliases :
    (ts : List AliasTargets) (m : AliasesOf) → AllSets m → AllSets (add_aliases ts m)
unfolding add_aliases
AllSets-add_aliases [] m h = h
AllSets-add_aliases (t ∷ ts) m h = elim (Bool-cases t.has_token_limit) [
  | inr free ↦ rw free (AllSets-add_aliases ts m h)
  | inl limited ↦ rw limited (
      AllSets-add_aliases ts (add_alias t.alias (target_keys t) m)
        (AllSets-add_alias t.alias (target_keys t) m h))
]
