-- ===== src/Routes/Lookup.antt =====
-- src/utils/config-loader.ts, getModelConfig and findWildcardPatternMatch: which entry of which section
-- serves a model name.
pub mod Laws
use model_proxy_v.Base.{
  ◌-◌, Bool, true, false, ◌&&◌, List, [], ◌∷◌, Option, none, some, Text, codes, includes,
  starts_with, ends_with, if◌then◌else◌, length, take,
}
use model_proxy_v.Base.Table.{get}
use model_proxy_v.Routes.Models.{
  RouteEntry, listed, named, Section, tuple, section, Models, default_section, or_option,
}

-- `key.slice(0, -2)`
abbrev pub strip_star : Text → Text
strip_star key = take (length key - 2) key

abbrev pub is_list : RouteEntry → Bool
is_list (listed []) = false
is_list (listed (f ∷ fs)) = true
is_list (named s) = false

unfoldable pub wildcard_matches : Text → Text → RouteEntry → Bool
wildcard_matches model_name key value =
    ends_with (codes "-*") key && is_list value && starts_with (strip_star key) model_name

unfoldable pub find_wildcard_pattern_match : Text → Section → Option RouteEntry
find_wildcard_pattern_match model_name [] = none
find_wildcard_pattern_match model_name ((key, value) ∷ rest) =
    if wildcard_matches model_name key value
    then some value
    else find_wildcard_pattern_match model_name rest

pub record Found : Type 0 where
  pub category : Text
  pub entry : RouteEntry
  pub category_config : Section

abbrev pub found_in : Text → Section → Option RouteEntry → Option Found
found_in category s none = none
found_in category s (some e) = some (record { category = category; entry = e; category_config = s })

unfoldable pub find_exact : Text → Models → Option Found
find_exact model_name [] = none
find_exact model_name ((category, tuple t) ∷ rest) = find_exact model_name rest
find_exact model_name ((category, section s) ∷ rest) =
    or_option (found_in category s (get model_name s)) (find_exact model_name rest)

abbrev pub skipped_sections : List Text
skipped_sections =
    codes "free" ∷ codes "FREE" ∷ codes "embedding" ∷ codes "EMBEDDING" ∷ codes "default" ∷ []

unfoldable pub find_wildcard : Text → Models → Option Found
unfolding find_wildcard_pattern_match
find_wildcard model_name [] = none
find_wildcard model_name ((category, tuple t) ∷ rest) = find_wildcard model_name rest
find_wildcard model_name ((category, section s) ∷ rest) =
    let later = find_wildcard model_name rest in
    if includes category skipped_sections
    then later
    else or_option (found_in category s (find_wildcard_pattern_match model_name s)) later

unfoldable pub find_default : Text → Models → Option Found
unfolding find_wildcard_pattern_match
find_default model_name models =
    let s = default_section (some models) in
    found_in (codes "default") s
      (or_option (find_wildcard_pattern_match model_name s) (get (codes "*") s))

-- getModelConfig where there is `[models]`.
unfoldable pub get_model_config : Text → Models → Option Found
unfolding find_exact find_wildcard find_default
get_model_config model_name models =
    or_option (find_exact model_name models)
      (or_option (find_wildcard model_name models) (find_default model_name models))
