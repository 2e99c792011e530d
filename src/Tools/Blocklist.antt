-- ===== src/Tools/Blocklist.antt =====
-- src/utils/tool-blocklist.ts: blocked tools are taken out of a request body. `blocked` is the set of
-- dashboard-stats.ts, `sidecar` the names that the judge erases. Log lines are left out.
pub mod Laws
pub mod Body
pub mod Choice
pub mod Tests
use model_proxy_v.Base.{
  Bool, false, ◌&&◌, ◌||◌, List, [], ◌∷◌, ◌++◌, Option, none, some, Text, codes, includes,
  if◌then◌else◌,
}
use model_proxy_v.Values.{
  Json, str, arr, obj, Fields, of_list, prop, set_prop, delete_prop, member, as_text, is_filled,
}
use model_proxy_v.Tools.Shapes.{tool_name_of, declarations_of, tools_of}

-- `{ ...t, functionDeclarations: newDecls }`
unfoldable pub with_declarations : List Json → Json → Json
with_declarations decls (obj fields) =
    obj (set_prop (codes "functionDeclarations") (arr (of_list decls)) fields)
with_declarations decls t = t

-- A wrapper with no declaration left is dropped.
unfoldable pub rewrap : Json → List Json → List Json
unfolding with_declarations
rewrap t [] = []
rewrap t (decl ∷ decls) = with_declarations (decl ∷ decls) t ∷ []

-- `body.tools` behind the loop.
unfoldable pub write_tools : List Text → List Json → Fields → Fields
write_tools [] filtered body = body
write_tools (name ∷ names) [] body = delete_prop (codes "tools") body
write_tools (name ∷ names) (t ∷ ts) body = set_prop (codes "tools") (arr (of_list (t ∷ ts))) body

-- The tool that `tool_choice` forces.
unfoldable pub referenced : Option Json → Option Text
referenced (some (obj choice)) = elim (as_text (prop (codes "name") choice)) [
  | some name ↦ some name
  | none ↦ elim (prop (codes "function") choice) [
    | none ↦ none
    | some fn ↦ as_text (member (codes "name") fn)
  ]
]
referenced _ = none

module _ (blocked sidecar : List Text) where
  unfoldable pub is_tool_blocked : Text → Bool
  is_tool_blocked name = includes name blocked

  -- `isToolBlocked(name) || sidecarBlocked.has(name)`
  unfoldable pub is_erased : Text → Bool
  unfolding is_tool_blocked
  is_erased name = is_tool_blocked name || includes name sidecar

  -- The name of a declaration that is to go.
  unfoldable pub erased_declaration : Json → Option Text
  erased_declaration decl = elim (as_text (member (codes "name") decl)) [
    | none ↦ none
    | some name ↦ if is_erased name then some name else none
  ]

  unfoldable pub keep_declarations : List Json → List Json
  keep_declarations [] = []
  keep_declarations (decl ∷ decls) = elim (erased_declaration decl) [
    | some name ↦ keep_declarations decls
    | none ↦ decl ∷ keep_declarations decls
  ]

  unfoldable pub erased_declarations : List Json → List Text
  erased_declarations [] = []
  erased_declarations (decl ∷ decls) = elim (erased_declaration decl) [
    | some name ↦ name ∷ erased_declarations decls
    | none ↦ erased_declarations decls
  ]

  -- `name && (isToolBlocked(name) || sidecarBlocked.has(name))`
  unfoldable pub erased_flat : Json → Option Text
  erased_flat t = elim (tool_name_of t) [
    | none ↦ none
    | some name ↦ if is_filled name && is_erased name then some name else none
  ]

  -- What one turn of the loop pushes to `filtered`.
  unfoldable pub filter_tool : Json → List Json
  unfolding rewrap
  filter_tool t = elim (declarations_of t) [
    | some decls ↦ rewrap t (keep_declarations decls)
    | none ↦ elim (erased_flat t) [ some name ↦ [] | none ↦ t ∷ [] ]
  ]

  -- What it pushes to `result.erasedNames`.
  unfoldable pub erased_of : Json → List Text
  erased_of t = elim (declarations_of t) [
    | some decls ↦ erased_declarations decls
    | none ↦ elim (erased_flat t) [ some name ↦ name ∷ [] | none ↦ [] ]
  ]

  unfoldable pub filter_tools : List Json → List Json
  filter_tools [] = []
  filter_tools (t ∷ ts) = filter_tool t ++ filter_tools ts

  unfoldable pub erased_names : List Json → List Text
  erased_names [] = []
  erased_names (t ∷ ts) = erased_of t ++ erased_names ts

  unfoldable pub resets_choice : Option Json → Bool
  unfolding referenced
  resets_choice choice = elim (referenced choice) [
    | none ↦ false
    | some name ↦ is_filled name && is_erased name
  ]

  unfoldable pub sanitize_tool_choice : Fields → Fields
  sanitize_tool_choice body =
      if resets_choice (prop (codes "tool_choice") body)
      then set_prop (codes "tool_choice") (str (codes "auto")) body
      else body

  -- The body and `erasedNames`; the flag `toolChoiceReset` is `resets_choice` of the body's choice.
  unfoldable pub erase_blocked_tools : Fields → Fields × List Text
  unfolding write_tools
  erase_blocked_tools body =
      let tools = tools_of body in
      let names = erased_names tools in
      (sanitize_tool_choice (write_tools names (filter_tools tools) body), names)
