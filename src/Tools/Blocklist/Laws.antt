-- ===== src/Tools/Blocklist/Laws.antt =====
-- src/utils/tool-blocklist.ts, eraseBlockedTools: the tools that the body names before and behind it.
use model_proxy_v.Base.{
  ◌≡◌, ◌∙◌, refl, sym, ap, Bool, true, not, List, [], ◌∷◌, ◌++◌, Option, none, some, Text, codes,
  same_refl, append_assoc, keep, arith, Option-cases, inl, inr, append-nil,
}
use model_proxy_v.Values.{
  Json, null, bool, num, str, arr, obj, Fields, of_list, items-of_list, prop-set_prop, member,
  is_filled,
}
use model_proxy_v.Tools.Shapes.{
  ToolRecord, filled_text, declaration_record, declaration_records, flat_record, function_record,
  tool_name_of, declarations_of, records_of, records_of_all,
}
use model_proxy_v.Tools.Blocklist.{
  is_erased, erased_declaration, keep_declarations, erased_declarations, with_declarations, rewrap,
  erased_flat, filter_tool, erased_of, filter_tools, erased_names,
}

keep-append :
    (p : ToolRecord → Bool) (xs ys : List ToolRecord) → keep p (xs ++ ys) ≡ keep p xs ++ keep p ys
keep-append p [] ys = refl
keep-append p (x ∷ xs) ys = ground (arith, keep-append p xs ys)

module _ (blocked sidecar : List Text) where
  -- The tool is not erased.
  abbrev pub survives : ToolRecord → Bool
  survives r = not (is_erased blocked sidecar (r.name))

  declaration_lem :
      (decl : Json) (o : Option Json)
      → member (codes "name") decl ≡ o
      → declaration_records
          (elim (erased_declaration blocked sidecar decl) [ some name ↦ [] | none ↦ decl ∷ [] ])
        ≡ keep survives (declaration_record decl)
  unfolding declaration_records declaration_record erased_declaration
  declaration_lem decl none e = ground arith
  declaration_lem decl (some (str [])) e = ground arith
  declaration_lem decl (some (str (c ∷ s))) e = ground arith
  declaration_lem decl (some null) e = ground arith
  declaration_lem decl (some (bool b)) e = ground arith
  declaration_lem decl (some (num n)) e = ground arith
  declaration_lem decl (some (arr vs)) e = ground arith
  declaration_lem decl (some (obj fs)) e = ground arith

  keep_declarations_step :
      (decl : Json) (decls : List Json)
      → declaration_records (keep_declarations blocked sidecar (decl ∷ decls))
        ≡ declaration_records
            (elim (erased_declaration blocked sidecar decl) [ some name ↦ [] | none ↦ decl ∷ [] ])
          ++ declaration_records (keep_declarations blocked sidecar decls)
  unfolding keep_declarations declaration_records
  keep_declarations_step decl decls = ground (arith, append-nil (declaration_record decl))

  -- The surviving declarations name the surviving tools.
  declarations_lem :
      (decls : List Json)
      → declaration_records (keep_declarations blocked sidecar decls)
        ≡ keep survives (declaration_records decls)
  unfolding declaration_records keep_declarations
  declarations_lem [] = refl
  declarations_lem (decl ∷ decls) =
      keep_declarations_step decl decls
      ∙ rw (declaration_lem decl (member (codes "name") decl) refl, declarations_lem decls)
          (sym (keep-append survives (declaration_record decl) (declaration_records decls)))

  function_name_filled :
      (fn : Json) (o : Option Json) (r : ToolRecord)
      → member (codes "name") fn ≡ o
      → function_record (some fn) ≡ some r
      → is_filled (r.name) ≡ true
  unfolding function_record
  function_name_filled fn none r e h = ground arith
  function_name_filled fn (some (str [])) r e h = ground arith
  function_name_filled fn (some (str (c ∷ s))) r e h = ground arith
  function_name_filled fn (some null) r e h = ground arith
  function_name_filled fn (some (bool b)) r e h = ground arith
  function_name_filled fn (some (num n)) r e h = ground arith
  function_name_filled fn (some (arr vs)) r e h = ground arith
  function_name_filled fn (some (obj fs)) r e h = ground arith

  function_filled :
      (o : Option Json) (r : ToolRecord) → function_record o ≡ some r → is_filled (r.name) ≡ true
  unfolding function_record
  function_filled none r h = cc
  function_filled (some fn) r h = function_name_filled fn (member (codes "name") fn) r refl h

  flat_filled :
      (t : Json) (o : Option Json) (r : ToolRecord)
      → member (codes "name") t ≡ o
      → flat_record t ≡ some r
      → is_filled (r.name) ≡ true
  unfolding flat_record filled_text
  flat_filled t none r e h = ground (arith, function_filled (member (codes "function") t) r)
  flat_filled t (some (str [])) r e h =
      ground (arith, function_filled (member (codes "function") t) r)
  flat_filled t (some (str (c ∷ s))) r e h = ground arith
  flat_filled t (some null) r e h = ground (arith, function_filled (member (codes "function") t) r)
  flat_filled t (some (bool b)) r e h =
      ground (arith, function_filled (member (codes "function") t) r)
  flat_filled t (some (num n)) r e h =
      ground (arith, function_filled (member (codes "function") t) r)
  flat_filled t (some (arr vs)) r e h =
      ground (arith, function_filled (member (codes "function") t) r)
  flat_filled t (some (obj fs)) r e h =
      ground (arith, function_filled (member (codes "function") t) r)

  flat_lem :
      (t : Json) (o : Option ToolRecord)
      → flat_record t ≡ o
      → declarations_of t ≡ none
      → records_of_all (filter_tool blocked sidecar t) ≡ keep survives (records_of t)
  unfolding records_of_all records_of filter_tool erased_flat tool_name_of
  flat_lem t none e d = ground arith
  flat_lem t (some r) e d = ground (arith, flat_filled t (member (codes "name") t) r refl e)

  declarations_of_with :
      (decls : List Json) (fs : Fields)
      → declarations_of (with_declarations decls (obj fs)) ≡ some decls
  unfolding declarations_of with_declarations
  declarations_of_with decls fs = ground (
    arith,
    prop-set_prop (codes "functionDeclarations") (codes "functionDeclarations")
        (arr (of_list decls)) fs,
    same_refl (codes "functionDeclarations"),
    items-of_list decls,
  )

  records_of-some :
      (t : Json) (ds : List Json)
      → declarations_of t ≡ some ds
      → records_of t ≡ declaration_records ds
  unfolding records_of
  records_of-some t ds e = ground arith

  filter_tool-some :
      (t : Json) (ds : List Json)
      → declarations_of t ≡ some ds
      → filter_tool blocked sidecar t ≡ rewrap t (keep_declarations blocked sidecar ds)
  unfolding filter_tool
  filter_tool-some t ds e = ground arith

  rewrap_obj :
      (fs : Fields) (decls : List Json)
      → records_of_all (with_declarations decls (obj fs) ∷ []) ≡ declaration_records decls
  unfolding records_of_all
  rewrap_obj fs decls =
      append-nil (records_of (with_declarations decls (obj fs)))
      ∙ records_of-some (with_declarations decls (obj fs)) decls (declarations_of_with decls fs)

  rewrap_lem :
      (t : Json) (ds decls : List Json)
      → declarations_of t ≡ some ds
      → records_of_all (rewrap t decls) ≡ declaration_records decls
  unfolding rewrap declarations_of records_of_all declaration_records
  rewrap_lem t ds [] e = refl
  rewrap_lem (obj fs) ds (d ∷ decls) e = rewrap_obj fs (d ∷ decls)
  rewrap_lem null ds (d ∷ decls) e = ground arith
  rewrap_lem (str s) ds (d ∷ decls) e = ground arith
  rewrap_lem (bool b) ds (d ∷ decls) e = ground arith
  rewrap_lem (num n) ds (d ∷ decls) e = ground arith
  rewrap_lem (arr vs) ds (d ∷ decls) e = ground arith

  filter_tool_lem :
      (t : Json) (o : Option (List Json))
      → declarations_of t ≡ o
      → records_of_all (filter_tool blocked sidecar t) ≡ keep survives (records_of t)
  filter_tool_lem t none e = flat_lem t (flat_record t) refl e
  filter_tool_lem t (some ds) e =
      ap records_of_all (filter_tool-some t ds e)
      ∙ rewrap_lem t ds (keep_declarations blocked sidecar ds) e
      ∙ declarations_lem ds
      ∙ ap (keep survives) (sym (records_of-some t ds e))

  records_of_all-append :
      (xs ys : List Json) → records_of_all (xs ++ ys) ≡ records_of_all xs ++ records_of_all ys
  unfolding records_of_all
  records_of_all-append [] ys = refl
  records_of_all-append (x ∷ xs) ys =
      rw (records_of_all-append xs ys)
        (sym (append_assoc (records_of x) (records_of_all xs) (records_of_all ys)))

  pub filter_tools_lem :
      (ts : List Json)
      → records_of_all (filter_tools blocked sidecar ts) ≡ keep survives (records_of_all ts)
  unfolding records_of_all filter_tools
  filter_tools_lem [] = refl
  filter_tools_lem (t ∷ ts) =
      records_of_all-append (filter_tool blocked sidecar t) (filter_tools blocked sidecar ts)
      ∙ rw (filter_tool_lem t (declarations_of t) refl, filter_tools_lem ts)
          (sym (keep-append survives (records_of t) (records_of_all ts)))

  -- Where no name was erased, every tool survives.
  none_erased_declarations :
      (decls : List Json)
      → erased_declarations blocked sidecar decls ≡ []
      → keep survives (declaration_records decls) ≡ declaration_records decls
  unfolding erased_declarations declaration_records
  none_erased_declarations [] h = refl
  none_erased_declarations (d ∷ ds) h = elim (Option-cases (erased_declaration blocked sidecar d)) [
    | inl e ↦
        let here : keep survives (declaration_record d) ≡ declaration_record d =
          sym (declaration_lem d (member (codes "name") d) refl)
          ∙ rw e (append-nil (declaration_record d)) in
        keep-append survives (declaration_record d) (declaration_records ds)
        ∙ rw (here, none_erased_declarations ds (ground arith))
    | inr (name, e) ↦ absurd (ground arith)
  ]

  append-nil_parts : (xs ys : List Text) → xs ++ ys ≡ [] → (xs ≡ []) × (ys ≡ [])
  append-nil_parts [] ys h = (refl, h)
  append-nil_parts (x ∷ xs) ys h = cc

  none_erased_of :
      (t : Json) (o : Option (List Json)) (r : Option ToolRecord)
      → declarations_of t ≡ o
      → flat_record t ≡ r
      → erased_of blocked sidecar t ≡ []
      → keep survives (records_of t) ≡ records_of t
  unfolding erased_of records_of erased_flat tool_name_of
  none_erased_of t (some ds) r e f h = ground (arith, none_erased_declarations ds)
  none_erased_of t none none e f h = ground arith
  none_erased_of t none (some r) e f h =
      ground (arith, flat_filled t (member (codes "name") t) r refl f)

  pub none_erased :
      (ts : List Json)
      → erased_names blocked sidecar ts ≡ []
      → keep survives (records_of_all ts) ≡ records_of_all ts
  unfolding erased_names records_of_all
  none_erased [] h = refl
  none_erased (t ∷ ts) h =
      let (here, later) = append-nil_parts (erased_of blocked sidecar t) _ h in
      keep-append survives (records_of t) (records_of_all ts)
      ∙ rw (
        none_erased_of t (declarations_of t) (flat_record t) refl refl here,
        none_erased ts later,
      )
