-- ===== src/Errors/Tests.antt =====
-- Errors on concrete inputs.
use model_proxy_v.Base.{◌≡◌, refl, true, none, some, codes, same, contains, to_lower_case}
use model_proxy_v.Errors.{
  ProxyError, PlainError, plain, is_abort, timed_out, classify_plain, create_error_response,
  decimal, handle_target_api_error,
}
use model_proxy_v.Errors.Laws.{IsTransport, response_of, create_error_response_sanitized}

abbrev aborted : PlainError
aborted = record {
  name = codes "Error";
  message = codes "The operation was Aborted by 10.0.0.1";
  code = none;
  cause_code = none;
  cause_name = none;
}

three_digits : decimal 503 ≡ codes "503"
unfolding decimal
three_digits = refl

aborted_class : classify_plain aborted ≡ some timed_out
unfolding classify_plain is_abort same contains to_lower_case
aborted_class = refl

rejected_key :
    (handle_target_api_error (λ s. none) 401 (codes "api") none).type ≡ codes "authentication_error"
unfolding handle_target_api_error
rejected_key = refl

create_error_response_sanitized_example :
    (c : ProxyError) × IsTransport c
    × (create_error_response (plain aborted) (some (codes "req_1")) none
        ≡ response_of c (some (codes "req_1")))
    × (is_abort aborted ≡ true → c ≡ timed_out)
create_error_response_sanitized_example =
    create_error_response_sanitized aborted (some (codes "req_1")) (λ e. cc (aborted_class, e))
