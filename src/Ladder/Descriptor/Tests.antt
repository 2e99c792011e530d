-- ===== src/Ladder/Descriptor/Tests.antt =====
-- Entries of an auth answer on concrete inputs.
use model_proxy_v.Base.{
  ◌≡◌, refl, Bool, true, ◌↔◌, List, [], ◌∷◌, map, Option, none, some, Text, codes, same, trim,
}
use model_proxy_v.Values.{
  Json, num, str, arr, obj, null, whole, minus, nil, cons, Fields, end, field, prop, is_nonblank,
  nonblank_text,
}
use model_proxy_v.Ladder.Descriptor.{
  no_target, bad_retry, parse_auth_targets, has_required_protocol_version, validate_entry,
  validate_options,
}
use model_proxy_v.Ladder.Descriptor.Options.{IsAcceptable}
use model_proxy_v.Ladder.Descriptor.Laws.{validate_entry_iff}

abbrev any_url : Text → Bool
any_url s = true

abbrev plain_entry : Fields
plain_entry = field (codes "target") (str (codes "m")) (
    field (codes "base") (str (codes "https://h")) (
      field (codes "retry_on") (arr (cons (num (whole 503)) nil))
        (field (codes "retry") (num (whole 2)) end)))

abbrev negative_retry : Fields
negative_retry =
    field (codes "target") (str (codes "m"))
      (field (codes "base") (str (codes "https://h")) (field (codes "retry") (num (minus 0)) end))

abbrev entries : List Fields
entries = plain_entry ∷ end ∷ negative_retry ∷ []

abbrev body : Json
body = obj (
    field (codes "version") (str (codes " 1 "))
      (field (codes "targets") (arr (cons (obj plain_entry) (cons null nil))) end))

abbrev parse : Text → Option Json
parse s = some body

parsed : parse_auth_targets parse (some (codes "{}")) ≡ plain_entry ∷ []
unfolding parse_auth_targets prop same
parsed = refl

versioned : has_required_protocol_version parse (some (codes "{}")) ≡ true
unfolding has_required_protocol_version nonblank_text is_nonblank prop same trim
versioned = refl

reasons : map (validate_entry any_url) entries ≡ none ∷ some no_target ∷ some bad_retry ∷ []
unfolding validate_entry validate_options nonblank_text is_nonblank prop same trim
reasons = refl

validate_entry_iff_example :
    (validate_entry any_url plain_entry ≡ none) ↔ IsAcceptable any_url plain_entry
validate_entry_iff_example = validate_entry_iff any_url plain_entry
