-- ===== src/Errors/Laws.antt =====
-- What a client may see of a failure.
use model_proxy_v.Base.{
  ◌≡◌, ◌≢◌, sym, ◌∙◌, some_injective, Bool, false, ◌⊎◌, inl, inr, Option-cases, true, Option, none,
  some, Text, if◌then◌else◌,
}
use model_proxy_v.Errors.{
  ProxyError, PlainError, plain, ErrorResponse, is_abort, timed_out, invalid_url, unreachable,
  truthy, classify_plain, classify_transport_error, create_error_response,
}

-- The three errors that stand for a transport failure.
abbrev pub IsTransport : ProxyError → Type 0
IsTransport c = (c ≡ timed_out) ⊎ (c ≡ invalid_url) ⊎ (c ≡ unreachable)

cascade_cases :
    {A : Type 0} (a b c d : Bool) (x y z r : A)
    → (if a then some x else if b then some y else if c then some z else if d then some z else none)
      ≡ some r
    → (r ≡ x) ⊎ (r ≡ y) ⊎ (r ≡ z)
cascade_cases true b c d x y z r h = inl (sym (some_injective h))
cascade_cases false true c d x y z r h = inr (inl (sym (some_injective h)))
cascade_cases false false true d x y z r h = inr (inr (sym (some_injective h)))
cascade_cases false false false true x y z r h = inr (inr (sym (some_injective h)))
cascade_cases false false false false x y z r h = cc

pub classify_plain-IsTransport :
    (e : PlainError) (c : ProxyError) → classify_plain e ≡ some c → IsTransport c
unfolding classify_plain
classify_plain-IsTransport e c h = cascade_cases _ _ _ _ _ _ _ _ h

abbrev pub response_of : ProxyError → Option Text → ErrorResponse
response_of c id = record {
  status = c.status;
  type = c.type;
  message = c.message;
  request_id = truthy id;
}

classify_plain_of_abort : (e : PlainError) → is_abort e ≡ true → classify_plain e ≡ some timed_out
unfolding classify_plain
classify_plain_of_abort e h = rw h

-- A plain error that counts as a transport failure is answered, where no status is given, by one
-- of three fixed texts with its status: nothing of the error's own message reaches the client. One
-- that looks like an abort or a time-out is answered by 504.
pub create_error_response_sanitized :
    (e : PlainError) (id : Option Text)
    → classify_plain e ≢ none
    → (c : ProxyError) × IsTransport c
      × (create_error_response (plain e) id none ≡ response_of c id)
      × (is_abort e ≡ true → c ≡ timed_out)
unfolding create_error_response classify_transport_error
create_error_response_sanitized e id h = elim (Option-cases (classify_plain e)) [
  | inl missing ↦ absurd (h missing)
  | inr (c, found) ↦ (
    c,
    classify_plain-IsTransport e c found,
    rw (found, create_error_response),
    λ a. some_injective (sym found ∙ classify_plain_of_abort e a),
  )
]
