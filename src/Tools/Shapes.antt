-- ===== src/Tools/Shapes.antt =====
-- src/utils/tool-shapes.ts: the tools that a request body names, in the shapes of Claude, OpenAI and
-- Gemini.
use model_proxy_v.Base.{
  true, false, List, [], ◌∷◌, ◌++◌, Option, none, some, Text, codes, includes, if◌then◌else◌,
}
use model_proxy_v.Values.{Json, null, str, arr, obj, Fields, end, items, prop, member, is_filled}

pub record ToolRecord : Type 0 where
  pub name : Text
  pub description : Option Text
  pub schema : Json

unfoldable pub as_schema : Option Json → Json
as_schema (some (obj fields)) = obj fields
as_schema (some (arr vs)) = arr vs
as_schema _ = obj end

-- `typeof v === 'string' && v.length > 0`: the text that passes
unfoldable pub filled_text : Option Json → Option Text
filled_text (some (str s)) = if is_filled s then some s else none
filled_text _ = none

-- `a ?? b`, where `null` is passed over
unfoldable pub or_value : Option Json → Option Json → Option Json
or_value none o = o
or_value (some null) o = o
or_value (some v) o = some v

unfoldable pub function_record : Option Json → Option ToolRecord
unfolding filled_text as_schema
function_record none = none
function_record (some fn) = elim (filled_text (member (codes "name") fn)) [
  | none ↦ none
  | some name ↦ some (record {
    name = name;
    description = filled_text (member (codes "description") fn);
    schema = as_schema (member (codes "parameters") fn);
  })
]

-- One Claude, OpenAI or Responses entry. A value that is no object has no members.
unfoldable pub flat_record : Json → Option ToolRecord
unfolding filled_text as_schema or_value function_record
flat_record t = elim (filled_text (member (codes "name") t)) [
  | none ↦ function_record (member (codes "function") t)
  | some name ↦ some (record {
    name = name;
    description = filled_text (member (codes "description") t);
    schema = as_schema (or_value (member (codes "input_schema") t) (member (codes "parameters") t));
  })
]

unfoldable pub tool_name_of : Json → Option Text
tool_name_of tool = elim (flat_record tool) [ none ↦ none | some r ↦ some (r.name) ]

-- One entry of `functionDeclarations`.
unfoldable pub declaration_record : Json → List ToolRecord
unfolding filled_text as_schema
declaration_record decl = elim (filled_text (member (codes "name") decl)) [
  | none ↦ []
  | some name ↦
      record {
        name = name;
        description = filled_text (member (codes "description") decl);
        schema = as_schema (member (codes "parameters") decl);
      }
      ∷ []
]

unfoldable pub declaration_records : List Json → List ToolRecord
declaration_records [] = []
declaration_records (decl ∷ decls) = declaration_record decl ++ declaration_records decls

abbrev pub list_of : Option ToolRecord → List ToolRecord
list_of none = []
list_of (some r) = r ∷ []

-- `Array.isArray(t.functionDeclarations)`: the declarations
unfoldable pub declarations_of : Json → Option (List Json)
declarations_of t = elim (member (codes "functionDeclarations") t) [
  | some (arr decls) ↦ some (items decls)
  | _ ↦ none
]

unfoldable pub records_of : Json → List ToolRecord
records_of t = elim (declarations_of t) [
  | some decls ↦ declaration_records decls
  | none ↦ list_of (flat_record t)
]

unfoldable pub records_of_all : List Json → List ToolRecord
records_of_all [] = []
records_of_all (tool ∷ tools) = records_of tool ++ records_of_all tools

-- The two loops of extractToolRecords, whose state is the set of names seen.
unfoldable pub first_of_each : List Text → List ToolRecord → List ToolRecord
first_of_each seen [] = []
first_of_each seen (r ∷ rs) = elim (includes (r.name) seen) [
  | true ↦ first_of_each seen rs
  | false ↦ r ∷ first_of_each (r.name ∷ seen) rs
]

-- `Array.isArray(body.tools)`: the tools; no array counts as no tools
unfoldable pub tools_of : Fields → List Json
tools_of body = elim (prop (codes "tools") body) [ some (arr tools) ↦ items tools | _ ↦ [] ]

unfoldable pub extract_tool_records : Fields → List ToolRecord
extract_tool_records body = first_of_each [] (records_of_all (tools_of body))
