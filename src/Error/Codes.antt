-- ===== src/Error/Codes.antt =====
-- How the code that a client reads and the HTTP status of a failure agree.
use jwt_exchange.Prelude.{ℕ, String, ◌≡◌, refl}
use jwt_exchange.Prelude.{str_eq, if◌then◌else◌}
use jwt_exchange.Error.{ServiceError, missing_token, error_code, status_code}

-- The status of each code, apart from the failures that carry it; 0 for a code of no failure.
abbrev pub status_of_code : String → ℕ
status_of_code c =
    if str_eq c "missing_token"
    then 422
    else if str_eq c "malformed_token"
    then 422
    else if str_eq c "invalid_signature"
    then 401
    else if str_eq c "expired_token"
    then 401
    else if str_eq c "invalid_issuer"
    then 401
    else if str_eq c "invalid_audience"
    then 401
    else if str_eq c "unknown_kid"
    then 401
    else if str_eq c "replay_detected"
    then 401
    else if str_eq c "idp_unavailable"
    then 503
    else if str_eq c "cert_not_loaded"
    then 500
    else if str_eq c "internal_error"
    then 500
    else 0

-- The HTTP status of every failure is a function of the code that the client reads: two failures
-- with one code never differ in their status.
pub status_code-error_code : (e : ServiceError) → status_code e ≡ status_of_code (error_code e)
unfolding status_code error_code
status_code-error_code missing_token = refl
status_code-error_code _ = refl
