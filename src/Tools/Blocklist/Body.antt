-- ===== src/Tools/Blocklist/Body.antt =====
-- src/utils/tool-blocklist.ts, eraseBlockedTools: the body that is sent on.
use model_proxy_v.Base.{
  ◌≡◌, ◌∙◌, refl, sym, ap, true, false, ◌||◌, List, [], ◌∷◌, Text, codes, includes, same, same_refl,
  same_iff, keep, arith, Bool-cases, inl, inr, Bool, not,
}
use model_proxy_v.Values.{
  Json, str, arr, Fields, of_list, items-of_list, set_prop, prop-set_prop, delete_prop,
  prop-delete_prop,
}
use model_proxy_v.Tools.Shapes.{
  ToolRecord, records_of_all, tools_of, first_of_each, extract_tool_records,
}
use model_proxy_v.Tools.Blocklist.{
  is_tool_blocked, is_erased, filter_tools, erased_names, write_tools, sanitize_tool_choice,
  erase_blocked_tools,
}
use model_proxy_v.Tools.Blocklist.Laws.{survives, filter_tools_lem, none_erased}

module _ (blocked sidecar : List Text) where
  tools_of-sanitize :
      (body : Fields) → tools_of (sanitize_tool_choice blocked sidecar body) ≡ tools_of body
  unfolding tools_of sanitize_tool_choice same
  tools_of-sanitize body =
      ground (arith, prop-set_prop (codes "tools") (codes "tool_choice") (str (codes "auto")) body)

  tools_of-set :
      (ts : List Json) (body : Fields)
      → tools_of (set_prop (codes "tools") (arr (of_list ts)) body) ≡ ts
  unfolding tools_of
  tools_of-set ts body = ground (
    arith,
    prop-set_prop (codes "tools") (codes "tools") (arr (of_list ts)) body,
    same_refl (codes "tools"),
    items-of_list ts,
  )

  tools_of-delete : (body : Fields) → tools_of (delete_prop (codes "tools") body) ≡ []
  unfolding tools_of
  tools_of-delete body =
      ground
        (arith, prop-delete_prop (codes "tools") (codes "tools") body, same_refl (codes "tools"))

  written_lem :
      (names : List Text) (filtered : List Json) (body : Fields)
      → names ≡ erased_names blocked sidecar (tools_of body)
      → filtered ≡ filter_tools blocked sidecar (tools_of body)
      → records_of_all (tools_of (write_tools names filtered body))
        ≡ keep (survives blocked sidecar) (records_of_all (tools_of body))
  unfolding write_tools
  written_lem [] filtered body e f = sym (none_erased blocked sidecar (tools_of body) (sym e))
  written_lem (n ∷ ns) [] body e f =
      ap records_of_all (tools_of-delete body ∙ f)
      ∙ filter_tools_lem blocked sidecar (tools_of body)
  written_lem (n ∷ ns) (t ∷ ts) body e f =
      ap records_of_all (tools_of-set (t ∷ ts) body ∙ f)
      ∙ filter_tools_lem blocked sidecar (tools_of body)

  records_of_erased :
      (body : Fields)
      → records_of_all (tools_of ((erase_blocked_tools blocked sidecar body).0))
        ≡ keep (survives blocked sidecar) (records_of_all (tools_of body))
  unfolding erase_blocked_tools
  records_of_erased body =
      ap records_of_all (tools_of-sanitize (write_tools _ _ body))
      ∙ written_lem (erased_names blocked sidecar (tools_of body))
          (filter_tools blocked sidecar (tools_of body)) body refl refl

  -- Two sets of seen names that agree on the names that are not erased.
  abbrev Agree : List Text → List Text → Type 0
  Agree seen seen' =
      (n : Text) → is_erased blocked sidecar n ≡ false → includes n seen ≡ includes n seen'

  Agree-both : (m : Text) (seen seen' : List Text) → Agree seen seen' → Agree (m ∷ seen) (m ∷ seen')
  Agree-both m seen seen' h n e = ap (◌||◌ (same n m)) (h n e)

  Agree-erased :
      (m : Text) (seen seen' : List Text)
      → is_erased blocked sidecar m ≡ true
      → Agree seen seen'
      → Agree seen (m ∷ seen')
  Agree-erased m seen seen' gone h n e = ground (arith, same_iff n m, h n e)

  first_of_each-keep :
      (seen seen' : List Text) (rs : List ToolRecord)
      → Agree seen seen'
      → first_of_each seen (keep (survives blocked sidecar) rs)
        ≡ keep (survives blocked sidecar) (first_of_each seen' rs)
  unfolding first_of_each
  first_of_each-keep seen seen' [] h = refl
  first_of_each-keep seen seen' (r ∷ rs) h =
      elim (Bool-cases (is_erased blocked sidecar (r.name))) [
        | inl gone ↦ ground (
          arith,
          first_of_each-keep seen seen' rs h,
          first_of_each-keep seen (r.name ∷ seen') rs (Agree-erased (r.name) seen seen' gone h),
        )
        | inr stays ↦ ground (
          arith,
          h (r.name) stays,
          first_of_each-keep seen seen' rs h,
          first_of_each-keep (r.name ∷ seen) (r.name ∷ seen') rs (Agree-both (r.name) seen seen' h),
        )
      ]

  -- The name is in neither list.
  abbrev pub is_allowed : ToolRecord → Bool
  is_allowed r = not (includes (r.name) blocked || includes (r.name) sidecar)

  -- The tools that are found in the body behind eraseBlockedTools are those found in the body before,
  -- in the same order and with the same descriptions and schemas, less those whose name is in the
  -- blocklist or in the names of the judge.
  pub extract-erase_blocked_tools :
      (body : Fields)
      → extract_tool_records ((erase_blocked_tools blocked sidecar body).0)
        ≡ keep is_allowed (extract_tool_records body)
  unfolding extract_tool_records is_erased is_tool_blocked
  extract-erase_blocked_tools body =
      ap (first_of_each []) (records_of_erased body)
      ∙ first_of_each-keep [] [] (records_of_all (tools_of body)) (λ n e. refl)
