-- ===== src/Routing/Dynamic/Tests.antt =====
-- Dynamic URLs on concrete inputs.
use model_proxy_v.Base.{
  ◌≡◌, refl, List, [], ◌∷◌, some, Text, codes, same, starts_with, contains, split_on, join_with,
  map,
}
use model_proxy_v.Routing.Dynamic.{
  ok, fails, no_endpoint, TargetConfig, ParsedRoute, parse_parts, parse_dynamic_route,
  build_target_url,
}
use model_proxy_v.Routing.Dynamic.Laws.{IsRoute, parse_parts-IsRoute}

abbrev config : TargetConfig
config = record {
  target_url = codes "https://api.q.com";
  target_path_prefix = codes "/openai/v1/models";
}

abbrev route : ParsedRoute
route = record {
  target_config = config;
  claude_endpoint = codes "v1/messages";
  model_id = some (codes "ds-v3");
}

parsed :
    parse_dynamic_route (codes "/https/api.q.com/openai/v1/models/ds-v3/v1/messages") ≡ ok route
unfolding parse_dynamic_route same starts_with contains split_on join_with
parsed = refl

unknown : parse_dynamic_route (codes "/https/api.q.com/a/b") ≡ fails no_endpoint
unfolding parse_dynamic_route same split_on
unknown = refl

built :
    build_target_url config (codes "v1/messages") (some (codes "ds-v3"))
    ≡ codes "https://api.q.com/openai/v1/models/ds-v3/v1/messages"
unfolding build_target_url
built = refl

abbrev rest : List Text
rest = map codes ("openai" ∷ "v1" ∷ "models" ∷ "ds-v3" ∷ "v1" ∷ "messages" ∷ [])

parse_parts-IsRoute_example : IsRoute (codes "https") (codes "api.q.com") rest route
unfolding parse_parts same contains starts_with join_with
parse_parts-IsRoute_example =
    parse_parts-IsRoute (codes "https") (codes "api.q.com") rest route parses
  where
    parses : parse_parts (codes "https" ∷ codes "api.q.com" ∷ rest) ≡ ok route
    parses = refl
