-- ===== src/Composite/Plans/Panel.antt =====
-- What the plan of a fusion alias is made of.
use model_proxy_v.Base.{
  Bool, true, false, ◌||◌, List, [], ◌∷◌, ◌++◌, append-nil, append_assoc, Option, none, some, Text,
  if◌then◌else◌, or_else, All, All-append, Option-cases, some_injective, inl, inr, ◌≡◌, refl, sym,
  ap, ◌∙◌, subst, arith,
}
use model_proxy_v.Routes.Models.{or_option}
use model_proxy_v.Composite.Plans.{
  Role, judge, synth, Entries, plan, refused, unresolved, Stages, place, place_all, FusionPlan,
  plan_of_members, resolve_fusion_plan,
}

abbrev pub is_judge : Option Role → Bool
is_judge (some judge) = true
is_judge _ = false

abbrev pub is_synth : Option Role → Bool
is_synth (some synth) = true
is_synth _ = false

-- The names of the targets that are neither judge nor synthesizer.
abbrev pub panel_names : Entries → List Text
panel_names [] = []
panel_names ((name, c) ∷ entries) =
    if is_judge c.role || is_synth c.role then panel_names entries else name ∷ panel_names entries

-- The name of the last target whose role passes.
abbrev pub last_name : (Option Role → Bool) → Entries → Option Text
last_name f [] = none
last_name f ((name, c) ∷ entries) =
    or_option (last_name f entries) (if f c.role then some name else none)

abbrev pub first_name : List Text → Option Text
first_name [] = none
first_name (name ∷ names) = some name

module _ {R : Type 0} (route_of : Text → Option R) where
  abbrev pub names : List (Text × R) → List Text
  names [] = []
  names (m ∷ ms) = m.0 ∷ names ms

  abbrev pub name_of : Option (Text × R) → Option Text
  name_of none = none
  name_of (some m) = some m.0

  names-append : (xs ys : List (Text × R)) → names (xs ++ ys) ≡ names xs ++ names ys
  names-append [] ys = refl
  names-append (x ∷ xs) ys = ap (◌∷◌ x.0) (names-append xs ys)

  abbrev pub Routed : Text × R → Type 0
  Routed m = route_of m.0 ≡ some m.1

  abbrev pub RoutedOption : Option (Text × R) → Type 0
  RoutedOption none = Unit
  RoutedOption (some m) = Routed m

  -- Stages to which members of these names, this judge and this synthesizer have been added.
  record Placed (ps : List Text) (j y : Option Text) (s t : Stages route_of) : Type 0 where
    members : names t.panel_members ≡ names s.panel_members ++ ps
    judges : name_of t.judge_member ≡ or_option j (name_of s.judge_member)
    synths : name_of t.synth_member ≡ or_option y (name_of s.synth_member)
    routed : All Routed t.panel_members
    judge_routed : RoutedOption t.judge_member
    synth_routed : RoutedOption t.synth_member

  record AllRouted (s : Stages route_of) : Type 0 where
    panel_lem : All Routed s.panel_members
    judge_lem : RoutedOption s.judge_member
    synth_lem : RoutedOption s.synth_member

  or_option_assoc :
      (a b c : Option Text) → or_option a (or_option b c) ≡ or_option (or_option a b) c
  or_option_assoc none b c = refl
  or_option_assoc (some a) b c = refl

  or_option-none : (a : Option Text) → or_option a none ≡ a
  or_option-none none = refl
  or_option-none (some a) = refl

  AllRouted-place :
      (o : Option Role) (m : Text × R) (s : Stages route_of)
      → Routed m
      → AllRouted s
      → AllRouted (place route_of o m s)
  AllRouted-place none m s h r = record {
    panel_lem = All-append Routed s.panel_members (m ∷ []) r.panel_lem (h, tt);
    judge_lem = r.judge_lem;
    synth_lem = r.synth_lem;
  }
  AllRouted-place (some judge) m s h r = record {
    panel_lem = r.panel_lem;
    judge_lem = h;
    synth_lem = r.synth_lem;
  }
  AllRouted-place (some synth) m s h r = record {
    panel_lem = r.panel_lem;
    judge_lem = r.judge_lem;
    synth_lem = h;
  }
  AllRouted-place (some _) m s h r = record {
    panel_lem = All-append Routed s.panel_members (m ∷ []) r.panel_lem (h, tt);
    judge_lem = r.judge_lem;
    synth_lem = r.synth_lem;
  }

  module _ (ps : List Text) (j y : Option Text) (m : Text × R) (s t : Stages route_of) where
    Placed-member :
        Placed ps j y (record s { panel_members = s.panel_members ++ m ∷ [] }) t
        → Placed (m.0 ∷ ps) (or_option j none) (or_option y none) s t
    Placed-member h = record {
      members =
          h.members
          ∙ rw (names-append s.panel_members (m ∷ []))
              (append_assoc (names s.panel_members) (m.0 ∷ []) ps);
      judges = h.judges ∙ ap (λ k. or_option k (name_of s.judge_member)) (sym (or_option-none j));
      synths = h.synths ∙ ap (λ k. or_option k (name_of s.synth_member)) (sym (or_option-none y));
      routed = h.routed;
      judge_routed = h.judge_routed;
      synth_routed = h.synth_routed;
    }

    Placed-place :
        (o : Option Role)
        → Placed ps j y (place route_of o m s) t
        → Placed
            (if is_judge o || is_synth o then ps else m.0 ∷ ps)
            (or_option j (if is_judge o then some m.0 else none))
            (or_option y (if is_synth o then some m.0 else none))
            s
            t
    Placed-place none h = Placed-member h
    Placed-place (some judge) h = record {
      members = h.members;
      judges = h.judges ∙ or_option_assoc j (some m.0) (name_of s.judge_member);
      synths = h.synths ∙ ap (λ k. or_option k (name_of s.synth_member)) (sym (or_option-none y));
      routed = h.routed;
      judge_routed = h.judge_routed;
      synth_routed = h.synth_routed;
    }
    Placed-place (some synth) h = record {
      members = h.members;
      judges = h.judges ∙ ap (λ k. or_option k (name_of s.judge_member)) (sym (or_option-none j));
      synths = h.synths ∙ or_option_assoc y (some m.0) (name_of s.synth_member);
      routed = h.routed;
      judge_routed = h.judge_routed;
      synth_routed = h.synth_routed;
    }
    Placed-place (some _) h = Placed-member h

  place_all-Placed :
      (entries : Entries) (s t : Stages route_of)
      → place_all route_of entries s ≡ some t
      → AllRouted s
      → Placed (panel_names entries) (last_name is_judge entries) (last_name is_synth entries) s t
  unfolding place_all
  place_all-Placed [] s t h r = subst (Placed [] none none s) (some_injective h) (record {
    members = sym (append-nil (names s.panel_members));
    judges = refl;
    synths = refl;
    routed = r.panel_lem;
    judge_routed = r.judge_lem;
    synth_routed = r.synth_lem;
  })
  place_all-Placed ((name, c) ∷ entries) s t h r = elim (Option-cases (route_of name)) [
    | inl missing ↦ absurd (ground arith)
    | inr (route, found) ↦
        let next : Stages route_of = place route_of c.role (name, route) s in
        let later : place_all route_of entries next ≡ some t = ground arith in
        Placed-place (panel_names entries) (last_name is_judge entries) (last_name is_synth entries)
          (name, route) s t c.role
          (place_all-Placed entries next t later (AllRouted-place c.role (name, route) s found r))
  ]

  -- The members are the targets that are neither judge nor synthesizer, in order; the judge is the last
  -- target with that role; the synthesizer is the last with its role, else the judge, else the first
  -- member; and each has the route of its name.
  pub record IsFusion (entries : Entries) (p : FusionPlan route_of) : Type 0 where
    pub members_lem : names p.members ≡ panel_names entries
    pub judge_lem : name_of p.judge_of ≡ last_name is_judge entries
    pub synth_lem :
        some p.synth_of.0
        ≡ or_option
            (last_name is_synth entries)
            (or_option (last_name is_judge entries) (first_name (panel_names entries)))
    pub routed : All Routed p.members
    pub judge_routed : RoutedOption p.judge_of
    pub synth_routed : Routed p.synth_of

  synth_choice :
      (m : Text × R) (j y : Option (Text × R))
      → some (or_else y (or_else j m)).0 ≡ or_option (name_of y) (or_option (name_of j) (some m.0))
  synth_choice m none none = refl
  synth_choice m (some j) none = refl
  synth_choice m j (some y) = refl

  Routed-synth_choice :
      (m : Text × R) (j y : Option (Text × R))
      → Routed m
      → RoutedOption j
      → RoutedOption y
      → Routed (or_else y (or_else j m))
  Routed-synth_choice m none none h k l = h
  Routed-synth_choice m (some j) none h k l = k
  Routed-synth_choice m j (some y) h k l = l

  plan_of_members-IsFusion :
      (entries : Entries) (ms : List (Text × R)) (j y : Option (Text × R)) (p : FusionPlan route_of)
      → plan_of_members route_of ms j y ≡ plan p
      → names ms ≡ panel_names entries
      → name_of j ≡ last_name is_judge entries
      → name_of y ≡ last_name is_synth entries
      → All Routed ms
      → RoutedOption j
      → RoutedOption y
      → IsFusion entries p
  plan_of_members-IsFusion entries [] j y p h a b c d e f = absurd (ground arith)
  plan_of_members-IsFusion entries (m ∷ ms) j y p h a b c d e f =
      let q : FusionPlan route_of = record {
        members = m ∷ ms;
        judge_of = j;
        synth_of = or_else y (or_else j m);
      } in
      let same_plan : q ≡ p = ground arith in
      let first : some m.0 ≡ first_name (panel_names entries) = ap first_name a in
      subst (IsFusion entries) same_plan (record {
        members_lem = a;
        judge_lem = b;
        synth_lem =
            subst
              (λ x.
                some q.synth_of.0
                ≡ or_option x
                    (or_option (last_name is_judge entries) (first_name (panel_names entries))))
              c
              (subst
                (λ x.
                  some q.synth_of.0
                  ≡ or_option (name_of y) (or_option x (first_name (panel_names entries))))
                b
                (subst (λ x. some q.synth_of.0 ≡ or_option (name_of y) (or_option (name_of j) x))
                  first (synth_choice m j y)));
        routed = d;
        judge_routed = e;
        synth_routed = Routed-synth_choice m j y d.0 e f;
      })

  -- Where a fusion alias has a plan, its panel is the targets that are neither judge nor synthesizer, in
  -- order, its judge the last target with that role, its synthesizer the last with its role, else the
  -- judge, else the first of the panel; and each has the route of its name.
  pub resolve_fusion_plan-IsFusion :
      (entries : Entries) (p : FusionPlan route_of)
      → resolve_fusion_plan route_of entries ≡ plan p
      → IsFusion entries p
  unfolding resolve_fusion_plan
  resolve_fusion_plan-IsFusion entries p h =
      let start : Stages route_of = record {
        panel_members = [];
        judge_member = none;
        synth_member = none;
      } in
      elim (Option-cases (place_all route_of entries start)) [
        | inl missing ↦
            absurd (let k : refused unresolved ≡ plan p = rw missing at h in ground arith)
        | inr (t, placed) ↦
            let w =
              place_all-Placed entries start t placed
                (record { panel_lem = tt; judge_lem = tt; synth_lem = tt }) in
            plan_of_members-IsFusion entries t.panel_members t.judge_member t.synth_member p
              (rw placed at h) w.members (w.judges ∙ or_option-none (last_name is_judge entries))
              (w.synths ∙ or_option-none (last_name is_synth entries)) w.routed w.judge_routed
              w.synth_routed
      ]
