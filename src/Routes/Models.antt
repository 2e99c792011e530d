-- ===== src/Routes/Models.antt =====
-- src/utils/config-loader.ts, getDefaultUpstreamConfig, resolveTransforms, parseApiKey,
-- resolveModelRouteFromEntry and getDefaultModelRoute. A section is a table of strings and arrays, as
-- the source reads it: `upstream_mode` and the like are keys beside those of models. `T` is the type of
-- a set of transforms.
use model_proxy_v.Base.{
  ℕ, Bool, false, not, ◌&&◌, List, [], ◌∷◌, ◌++◌, map, Option, none, some, Text, codes, same,
  contains, starts_with, ends_with, split_on, join_with, trim, is_digit, parse_digits,
  if◌then◌else◌, ◌==◌, length, get_elem?, drop, all, or_else,
}
use model_proxy_v.Base.Table.{get}
use model_proxy_v.KeyStore.Slots.{or_text}

pub data RouteEntry : Type 0 where
  listed : List Text → RouteEntry
  named : Text → RouteEntry

abbrev pub Section : Type 0
Section = List (Text × RouteEntry)

-- A value of `models`.
pub data ModelValue : Type 0 where
  tuple : List Text → ModelValue
  section : Section → ModelValue

abbrev pub Models : Type 0
Models = List (Text × ModelValue)

-- The parts of ProxyConfig that a route is made from; `none`: no `[models]` at all.
pub record RouteConfig (T : Type 0) : Type 0 where
  pub models : Option Models
  pub transforms : List (Text × T)
  pub transform_defaults : List (Text × List Text)

abbrev pub text_entry : Option RouteEntry → Option Text
text_entry (some (named s)) = some s
text_entry _ = none

-- `s ? s : undefined`
abbrev pub filled : Option Text → Option Text
filled (some (c ∷ s)) = some (c ∷ s)
filled _ = none

-- `a ?? b`
abbrev pub or_option {ℓ} : {A : Type ℓ} → Option A → Option A → Option A
or_option none b = b
or_option (some a) b = some a

abbrev pub section_of : Option ModelValue → Section
section_of (some (section s)) = s
section_of _ = []

-- `models.default`, where it is no array
abbrev pub default_section : Option Models → Section
default_section none = []
default_section (some ms) = section_of (get (codes "default") ms)

pub record Upstream : Type 0 where
  pub upstream_mode : Text
  pub base_url : Option Text
  pub api_key : Option Text

abbrev pub field_of : Text → Section → Option Text
field_of k s = text_entry (get k s)

unfoldable pub get_default_upstream_config : Option Models → Section → Upstream
get_default_upstream_config models primary =
    let default = default_section models in
    record {
      upstream_mode =
          or_else
            (or_option (filled (field_of (codes "upstream_mode") primary))
              (field_of (codes "upstream_mode") default))
            (codes "openai-completions");
      base_url =
          or_option (filled (field_of (codes "base_url") primary))
            (field_of (codes "base_url") default);
      api_key =
          or_option (filled (field_of (codes "api_key") primary))
            (field_of (codes "api_key") default);
    }

-- `baseUrl || 'http://localhost'`
abbrev pub or_localhost : Option Text → Text
or_localhost url = or_else (filled url) (codes "http://localhost")

unfoldable pub parse_api_key : Option Text → Option Text
parse_api_key none = none
parse_api_key (some []) = none
parse_api_key (some (c ∷ s)) =
    if contains (b':' ∷ []) (c ∷ s)
    then some (trim (join_with b':' (drop 1 (split_on b':' (c ∷ s)))))
    else some (c ∷ s)

-- `.filter(Boolean)`
abbrev pub drop_blank : List Text → List Text
drop_blank [] = []
drop_blank ([] ∷ ns) = drop_blank ns
drop_blank ((c ∷ s) ∷ ns) = (c ∷ s) ∷ drop_blank ns

module _ {T : Type 0} where
  -- `.map(n => defined[n]).filter(s => s !== undefined)`
  unfoldable pub defined_of : List (Text × T) → List Text → List T
  defined_of table [] = []
  defined_of table (n ∷ ns) = elim (get n table) [
    | none ↦ defined_of table ns
    | some t ↦ t ∷ defined_of table ns
  ]

  unfoldable pub lookup_csv : List (Text × T) → Option Text → List T
  unfolding defined_of
  lookup_csv table csv = defined_of table (drop_blank (map trim (split_on b',' (or_else csv []))))

  -- Mode defaults, then those of the section, then those of the entry.
  unfoldable pub resolve_transforms : RouteConfig T → Text → Option Text → Option Text → List T
  unfolding lookup_csv defined_of
  resolve_transforms c mode category entry =
      defined_of c.transforms (or_else (get mode c.transform_defaults) [])
      ++ (lookup_csv c.transforms category ++ lookup_csv c.transforms entry)

-- A route but for its alias.
pub record RouteRest (T : Type 0) : Type 0 where
  pub target_url : Text
  pub api_key : Option Text
  pub upstream_mode : Text
  pub section_name : Option Text
  pub transforms : List T
  pub max_tokens : Option ℕ

-- `alias.slice(0, alias.indexOf('*'))`
unfoldable pub before_star : Text → Text
before_star [] = []
before_star (c ∷ s) = if c == b'*' then [] else c ∷ before_star s

-- A prefix with a star stands for the name that was asked for, where that begins with it.
unfoldable pub fill_prefix : Text → Text → Text
unfolding before_star
fill_prefix name alias =
    if not (same name [])
      && ends_with (codes "*") alias
      && contains (codes "-") alias
      && starts_with (before_star alias) name
    then before_star alias ++ drop (length (before_star alias)) name
    else alias

-- A bare star stands for the name itself.
unfoldable pub fill_star : Text → Text → Text
fill_star name target = if same target (codes "*") && not (same name []) then name else target

abbrev pub digits_only : Text → Bool
digits_only [] = false
digits_only (c ∷ s) = all is_digit (c ∷ s)

unfoldable pub parse_max_tokens : Option Text → Option ℕ
parse_max_tokens none = none
parse_max_tokens (some s) = if digits_only s then some (parse_digits 0 s) else none

abbrev pub text_at : ℕ → List Text → Text
text_at i fields = or_else (get_elem? fields i) []

-- The alias, empty where the source has none, and the rest of a route.
abbrev pub Route : Type 0 → Type 0
Route T = Text × RouteRest T

module _ {T : Type 0} (c : RouteConfig T) where
  unfoldable pub resolve_model_route_from_entry : RouteEntry → Section → Text → Text → Route T
  unfolding get_default_upstream_config parse_api_key fill_prefix fill_star parse_max_tokens
  resolve_model_route_from_entry (listed fields) category model_name section_name =
      let upstream = get_default_upstream_config c.models category in
      let mode = or_text (text_at 3 fields) upstream.upstream_mode in
      (
        fill_star model_name (fill_prefix model_name (text_at 0 fields)),
        record {
          target_url = or_text (text_at 1 fields) (or_localhost upstream.base_url);
          api_key = parse_api_key (or_option (filled (get_elem? fields 2)) upstream.api_key);
          upstream_mode = mode;
          section_name = some section_name;
          transforms =
              resolve_transforms c mode (field_of (codes "transforms") category)
                (get_elem? fields 4);
          max_tokens = parse_max_tokens (get_elem? fields 5);
        },
      )
  resolve_model_route_from_entry (named alias) category model_name section_name =
      let upstream = get_default_upstream_config c.models category in
      (
        alias,
        record {
          target_url = or_localhost upstream.base_url;
          api_key = parse_api_key upstream.api_key;
          upstream_mode = upstream.upstream_mode;
          section_name = some section_name;
          transforms = resolve_transforms c upstream.upstream_mode none none;
          max_tokens = none;
        },
      )

  unfoldable pub get_default_model_route : Route T
  unfolding get_default_upstream_config parse_api_key
  get_default_model_route =
      let upstream = get_default_upstream_config c.models [] in
      (
        [],
        record {
          target_url = or_localhost upstream.base_url;
          api_key = parse_api_key upstream.api_key;
          upstream_mode = upstream.upstream_mode;
          section_name = none;
          transforms = resolve_transforms c upstream.upstream_mode none none;
          max_tokens = none;
        },
      )
