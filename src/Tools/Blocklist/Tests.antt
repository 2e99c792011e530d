-- ===== src/Tools/Blocklist/Tests.antt =====
-- A request with tools in three shapes, one of them blocked and one erased by the judge.
use model_proxy_v.Base.{◌≡◌, refl, List, [], ◌∷◌, Text, codes, same, keep}
use model_proxy_v.Values.{Json, str, arr, obj, Fields, field, end, nil, cons, prop}
use model_proxy_v.Tools.Shapes.{
  extract_tool_records, flat_record, declarations_of, tools_of, tool_name_of,
}
use model_proxy_v.Tools.Blocklist.{erase_blocked_tools, resets_choice, erased_names}
use model_proxy_v.Tools.Blocklist.Body.{is_allowed, extract-erase_blocked_tools}

abbrev named : Text → Fields
named n = field (codes "name") (str n) end

abbrev body : Fields
body = field (codes "model") (str (codes "glm")) (
    field (codes "tools")
      (arr (
        cons (obj (named (codes "Bash"))) (
          cons (obj (field (codes "function") (obj (named (codes "Read"))) end)) (
            cons
              (obj (
                field (codes "functionDeclarations")
                  (arr (cons (obj (named (codes "Edit"))) (cons (obj (named (codes "Web"))) nil)))
                  end))
              nil))))
      (field (codes "tool_choice") (obj (named (codes "Bash"))) end))

abbrev blocked : List Text
blocked = codes "Bash" ∷ []

abbrev judged : List Text
judged = codes "Edit" ∷ []

abbrev sent : Fields
sent = field (codes "model") (str (codes "glm")) (
    field (codes "tools")
      (arr (
        cons (obj (field (codes "function") (obj (named (codes "Read"))) end)) (
          cons
            (obj (
              field (codes "functionDeclarations") (arr (cons (obj (named (codes "Web"))) nil))
                end))
            nil)))
      (field (codes "tool_choice") (str (codes "auto")) end))

erased : erase_blocked_tools blocked judged body ≡ (sent, codes "Bash" ∷ codes "Edit" ∷ [])
unfolding erase_blocked_tools model_proxy_v.Tools.Blocklist.sanitize_tool_choice erased_names
    resets_choice tools_of prop same model_proxy_v.Tools.Blocklist.erased_of declarations_of
    model_proxy_v.Tools.Blocklist.erased_flat tool_name_of flat_record
    model_proxy_v.Tools.Blocklist.is_erased model_proxy_v.Tools.Blocklist.filter_tools
    model_proxy_v.Tools.Blocklist.erased_declarations model_proxy_v.Tools.Blocklist.filter_tool
    model_proxy_v.Tools.Blocklist.erased_declaration model_proxy_v.Values.set_prop
    model_proxy_v.Tools.Blocklist.keep_declarations
erased = refl

extract-erase_blocked_tools_example :
    extract_tool_records ((erase_blocked_tools blocked judged body).0)
    ≡ keep (is_allowed blocked judged) (extract_tool_records body)
extract-erase_blocked_tools_example = extract-erase_blocked_tools blocked judged body
