-- ===== src/Models.antt =====
-- src/models/api.rs: the bodies of requests and responses, and the response that a handler returns.
use jwt_exchange.Prelude.{ℕ, String, Option, List}
use jwt_exchange.Prelude.Int.{ℤ}
use jwt_exchange.Http.{Headers}
use jwt_exchange.Error.{ErrorEnvelope}

pub record ExchangeRequest : Type 0 where
  pub token : Option String
  pub groups : Option (List String)

pub record ExchangeResponse : Type 0 where
  pub access_token : String
  pub token_type : String
  pub expires_in : ℤ
  pub issued_at : String

pub record HealthChecks : Type 0 where
  pub jwks : String
  pub signing_key : String
  pub database : String

pub record HealthResponse : Type 0 where
  pub status : String
  pub checks : HealthChecks
  pub uptime_seconds : ℕ

-- What a response carries: a value that is written as JSON, or a plain text.
pub data Body : Type 0 where
  failure : ErrorEnvelope → Body
  exchanged : ExchangeResponse → Body
  health_report : HealthResponse → Body
  plain : (content_type text : String) → Body

-- `actix_web::HttpResponse`
pub record HttpResponse : Type 0 where
  pub status : ℕ
  pub headers : Headers
  pub body : Body
