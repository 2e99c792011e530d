-- ===== src/Routing/Dynamic.antt =====
-- `parseDynamicRoute` and `buildTargetUrl` of src/utils/routing.ts.
pub mod Laws
mod Tests
use model_proxy_v.Base.{
  String, ℕ, zero, suc, ◌+◌, ◌-◌, Bool, false, not, ◌&&◌, ◌||◌, List, [], ◌∷◌, ◌++◌, map, Option,
  none, some, Text, codes, same, includes, contains, split_on, join_with, length, get_elem?, take,
  drop, ltb, ◌==◌, if◌then◌else◌,
}
use model_proxy_v.Values.{is_filled}

-- The errors that are thrown, without their wording.
pub data RouteError : Type 0 where
  too_short bad_protocol no_endpoint unclear_structure unknown_endpoint : RouteError

pub data Result (A : Type 0) : Type 0 where
  ok : A → Result A
  fails : RouteError → Result A

pub record TargetConfig : Type 0 where
  pub target_url : Text
  pub target_path_prefix : Text

pub record ParsedRoute : Type 0 where
  pub target_config : TargetConfig
  pub claude_endpoint : Text
  pub model_id : Option Text

-- `parts.slice(i, j)`
unfoldable pub slice : ℕ → ℕ → List Text → List Text
slice i j parts = take (j - i) (drop i parts)

-- `path.startsWith('/') ? path.slice(1) : path`
abbrev pub strip_slash : Text → Text
strip_slash [] = []
strip_slash (c ∷ s) = if c == b'/' then s else c ∷ s

-- `o === text`, where `o` may be missing
abbrev pub is_part : Option Text → String → Bool
is_part none t = false
is_part (some s) t = same s (codes t)

-- The test of the loop at index `i`.
unfoldable pub is_endpoint_at : List Text → ℕ → Bool
is_endpoint_at parts i =
    (is_part (get_elem? parts i) "v1" || is_part (get_elem? parts i) "v1beta")
    && ((is_part (get_elem? parts (i + 1)) "models"
          || is_part (get_elem? parts (i + 1)) "messages"
          || is_part (get_elem? parts (i + 1)) "interactions")
        || (is_part (get_elem? parts (i + 1)) "messages"
            && is_part (get_elem? parts (i + 2)) "count_tokens"))

-- `for (let i = from; i >= 2; i--)`, up to its `break`
unfoldable pub locate : List Text → ℕ → Option ℕ
unfolding is_endpoint_at
locate parts zero = none
locate parts (suc i) =
    let rest = locate parts i in
    if ltb (suc i) 2 then none else if is_endpoint_at parts (suc i) then some (suc i) else rest

abbrev pub common_path_segments : List Text
common_path_segments =
    map codes ("v1" ∷ "v2" ∷ "models" ∷ "messages" ∷ "completions" ∷ "chat" ∷ "openai" ∷ "api" ∷ [])

-- Whether the last part in front of the endpoint is taken for a model.
unfoldable pub is_model_id : Text → Bool
is_model_id p =
    not (includes p common_path_segments) && (not (contains (codes "/") p) && is_filled p)

abbrev pub get_last? : List Text → Option Text
get_last? [] = none
get_last? (p ∷ []) = some p
get_last? (p ∷ q ∷ ps) = get_last? (q ∷ ps)

-- The branches on the parts between the target's path (which ends at `stop`) and the endpoint (which
-- begins at `start`): the model, and where the path ends then.
unfoldable pub find_model : List Text → ℕ → ℕ → Result (Option Text × ℕ)
unfolding is_model_id
find_model parts stop start = elim (slice (stop + 1) start parts) [
  | [] ↦ elim (get_last? (slice 2 (stop + 1) parts)) [
    | none ↦ ok (none, stop)
    | some p ↦ if is_model_id p then ok (some p, stop - 1) else ok (none, stop)
  ]
  | m ∷ rest ↦ if length rest == 0 then ok (some m, stop) else fails unclear_structure
]

-- `path ? '/' + path : ''`
abbrev pub with_slash : Text → Text
with_slash path = if is_filled path then b'/' ∷ path else []

unfoldable pub assemble :
    List Text → Text → Text → ℕ → Result (Option Text × ℕ) → Result ParsedRoute
assemble parts protocol host start (fails e) = fails e
assemble parts protocol host start (ok (model, stop)) = ok (record {
  target_config = record {
    target_url = protocol ++ (codes "://" ++ host);
    target_path_prefix = with_slash (join_with b'/' (slice 2 (stop + 1) parts));
  };
  claude_endpoint = join_with b'/' (drop start parts);
  model_id = model;
})

-- `parseDynamicRoute` on the parts of the URL.
unfoldable pub parse_parts : List Text → Result ParsedRoute
unfolding find_model locate slice assemble
parse_parts (protocol ∷ host ∷ rest) =
    let parts = protocol ∷ host ∷ rest in
    if ltb (length parts) 4
    then fails too_short
    else if not (same protocol (codes "http") || same protocol (codes "https"))
    then fails bad_protocol
    else (elim (locate parts (length parts - 1)) [
      | none ↦ fails no_endpoint
      | some start ↦ assemble parts protocol host start (find_model parts (start - 1) start)
    ])
parse_parts _ = fails too_short

unfoldable pub parse_dynamic_route : Text → Result ParsedRoute
unfolding parse_parts
parse_dynamic_route url = parse_parts (split_on b'/' (strip_slash url))

-- `if (modelId)`
abbrev pub model_part : Option Text → Text
model_part none = []
model_part (some m) = if is_filled m then b'/' ∷ m else []

unfoldable pub build_target_url : TargetConfig → Text → Option Text → Text
build_target_url config endpoint model =
    (config.target_url ++ config.target_path_prefix) ++ (model_part model ++ (b'/' ∷ endpoint))
