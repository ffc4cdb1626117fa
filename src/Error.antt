-- ===== src/Error.antt =====
-- src/error.rs: the failures of the service, their codes, their HTTP status and the envelope that a
-- client receives. The payload of `Database` and of `Other` is the error's own text.
pub mod Codes
pub mod Response
use Prim.Native.String.{◌++◌ as concat}
use jwt_exchange.Prelude.{ℕ, String, Option, none, some, List}

pub data ServiceError : Type 0 where
  missing_token malformed_token invalid_signature expired_token : ServiceError
  invalid_issuer invalid_audience unknown_kid : ServiceError
  replay_detected :
      (inbound_sub : String) (inbound_iss inbound_aud : Option String) (replay_id : String)
      → ServiceError
  idp_unavailable cert_not_loaded internal_error : ServiceError
  database jwks signing other : String → ServiceError

-- `#[error(...)]`: the text of each failure.
unfoldable pub to_string : ServiceError → String
to_string missing_token = "no token provided in request body or Authorization header"
to_string malformed_token = "token is not a valid JWT structure"
to_string invalid_signature = "JWT signature verification failed"
to_string expired_token = "JWT has expired"
to_string invalid_issuer = "JWT issuer does not match configured IdP issuer"
to_string invalid_audience = "JWT audience does not match expected audience"
to_string unknown_kid = "key ID not found in JWKS"
to_string (replay_detected _ _ _ _) = "token has already been used (replay detected)"
to_string idp_unavailable = "failed to fetch IdP configuration or JWKS"
to_string cert_not_loaded = "public certificate not loaded"
to_string internal_error = "internal server error"
to_string (database e) = concat "database error: " e
to_string (jwks e) = concat "JWKS error: " e
to_string (signing e) = concat "signing error: " e
to_string (other e) = concat "other error: " e

pub record ErrorDetail : Type 0 where
  pub field_name : String
  pub message : String
  pub error_code : String

pub record ErrorEnvelope : Type 0 where
  pub error : String
  pub message : String
  pub detail : Option String
  pub details : Option (List ErrorDetail)
  pub request_id : String
  pub timestamp : String

unfoldable pub error_code : ServiceError → String
error_code missing_token = "missing_token"
error_code malformed_token = "malformed_token"
error_code invalid_signature = "invalid_signature"
error_code expired_token = "expired_token"
error_code invalid_issuer = "invalid_issuer"
error_code invalid_audience = "invalid_audience"
error_code unknown_kid = "unknown_kid"
error_code (replay_detected _ _ _ _) = "replay_detected"
error_code idp_unavailable = "idp_unavailable"
error_code cert_not_loaded = "cert_not_loaded"
error_code internal_error = "internal_error"
error_code (database _) = "internal_error"
error_code (jwks _) = "internal_error"
error_code (signing _) = "internal_error"
error_code (other _) = "internal_error"

unfoldable pub detail_of : ServiceError → Option String
detail_of unknown_kid = some "key ID not found in JWKS after refresh"
detail_of invalid_signature = some "signature did not match any JWKS key"
detail_of expired_token = some "token exp claim is in the past"
detail_of invalid_issuer = some "iss claim does not match configured IdP issuer"
detail_of invalid_audience = some "aud claim does not match expected audience"
detail_of _ = none

-- `to_envelope`; `now` is the text of the current time.
unfoldable pub to_envelope : String → ServiceError → String → ErrorEnvelope
unfolding error_code to_string detail_of
to_envelope now e request_id = record {
  error = error_code e;
  message = to_string e;
  detail = detail_of e;
  details = none;
  request_id = request_id;
  timestamp = now;
}

unfoldable pub status_code : ServiceError → ℕ
status_code missing_token = 422
status_code malformed_token = 422
status_code invalid_signature = 401
status_code expired_token = 401
status_code invalid_issuer = 401
status_code invalid_audience = 401
status_code unknown_kid = 401
status_code (replay_detected _ _ _ _) = 401
status_code idp_unavailable = 503
status_code cert_not_loaded = 500
status_code internal_error = 500
status_code (database _) = 500
status_code (jwks _) = 500
status_code (signing _) = 500
status_code (other _) = 500
