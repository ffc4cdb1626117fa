-- ===== src/Handlers/Exchange.antt =====
-- src/handlers/exchange.rs: the token and the source of a request, the exchange, its audit and its
-- response. The names of headers are in lower case.
pub mod Audit
pub mod Requests
pub mod Tests
use mathlib.Core.Option.{bind}
use jwt_exchange.Prelude.{
  ℕ, String, Bool, not, Option, none, some, get_or, List, [], ◌∷◌, map, or_else, if◌then◌else◌,
}
use jwt_exchange.Prelude.Int.{ℤ, pos}
use jwt_exchange.Result.{Result, ok, err}
use jwt_exchange.Str.{split, trim, is_empty_str, strip_prefix}
use jwt_exchange.Http.{no_headers, set_header}
use jwt_exchange.Error.{ServiceError, missing_token, replay_detected, status_code, to_string}
use jwt_exchange.Error.Response.{to_error_response}
use jwt_exchange.Models.{ExchangeRequest, ExchangeResponse, HttpResponse, exchanged}
use jwt_exchange.Middleware.{from_request}
use jwt_exchange.Crates.{Crates}
use jwt_exchange.Config.{AppConfig}
use jwt_exchange.Auth.Jwks.{visible}
use jwt_exchange.Db.Replay.{Fault}
use jwt_exchange.Db.AuditLog.{AuditRecord}
use jwt_exchange.Services.AuditService.{Sinks, log_exchange_attempt}
use jwt_exchange.Services.Mint.{Moment, TokenExchangeResult}
use jwt_exchange.Services.Exchange.{Shared, exchange_token}

-- `actix_web::HttpRequest`: its headers, of which one that is no visible ASCII is `some none`, the
-- address of the peer, and the extension of the middleware.
pub record HttpRequest : Type 0 where
  pub header : String → Option (Option String)
  pub peer_ip : Option String
  pub extension : Option String

abbrev body_token : Option ExchangeRequest → Option String
body_token none = none
body_token (some b) = b.token

abbrev body_groups : Option ExchangeRequest → Option (List String)
body_groups none = none
body_groups (some b) = b.groups

-- The token of the header, or else of the body.
unfoldable pub token_of : HttpRequest → Option ExchangeRequest → Option String
unfolding strip_prefix
token_of req body =
    or_else (bind (visible (req.header "authorization")) (strip_prefix "Bearer ")) (body_token body)

-- `find(|s| !s.is_empty())`
unfoldable pub first_filled : List String → Option String
first_filled [] = none
first_filled (s ∷ rest) = let later = first_filled rest in if is_empty_str s then later else some s

-- `filter(|s| !s.is_empty())`
abbrev pub filled : String → Option String
filled s = if is_empty_str s then none else some s

unfoldable pub extract_source_ip : HttpRequest → String
unfolding split trim first_filled
extract_source_ip req =
    get_or
      (or_else
        (bind (visible (req.header "x-forwarded-for"))
          (λ h. first_filled (map trim (split b',' h))))
        (or_else (bind (visible (req.header "x-real-ip")) (λ h. filled (trim h))) req.peer_ip))
      "unknown"

-- The record of an attempt, from the result of the exchange.
unfoldable pub record_of : String → ℤ → Result TokenExchangeResult ServiceError → AuditRecord
unfolding status_code to_string
record_of source_ip elapsed_ms (ok r) = record {
  source_ip = source_ip;
  inbound_sub = some r.inbound_sub;
  inbound_iss = r.inbound_iss;
  inbound_aud = r.inbound_aud;
  validation = "success";
  error_detail = none;
  outbound_sub = some r.outbound_sub;
  token_jti = some r.token_hash;
  response_code = pos 200;
  elapsed_ms = elapsed_ms;
}
record_of source_ip elapsed_ms (err (replay_detected sub iss aud replay_id)) = record {
  source_ip = source_ip;
  inbound_sub = some sub;
  inbound_iss = iss;
  inbound_aud = aud;
  validation = "success";
  error_detail = some "token has already been used (replay detected)";
  outbound_sub = none;
  token_jti = some replay_id;
  response_code = pos 401;
  elapsed_ms = elapsed_ms;
}
record_of source_ip elapsed_ms (err e) = record {
  source_ip = source_ip;
  inbound_sub = none;
  inbound_iss = none;
  inbound_aud = none;
  validation = to_string e;
  error_detail = some (to_string e);
  outbound_sub = none;
  token_jti = none;
  response_code = pos (status_code e);
  elapsed_ms = elapsed_ms;
}

abbrev response_body : TokenExchangeResult → ExchangeResponse
response_body r = record {
  access_token = r.access_token;
  token_type = "Bearer";
  expires_in = r.expires_in;
  issued_at = r.issued_at;
}

-- The response, from the result of the exchange.
unfoldable pub response_of :
    String → String → Result TokenExchangeResult ServiceError → HttpResponse
unfolding to_error_response set_header
response_of now request_id (err e) = to_error_response now e request_id
response_of now request_id (ok r) = record {
  status = 200;
  headers = set_header "x-request-id" request_id no_headers;
  body = exchanged (response_body r);
}

-- What one request sees beside the exchange itself.
pub record RequestMoment : Type 0 where
  pub now : String
  pub elapsed_ms : ℤ
  pub fresh_id : String
  pub audit_fault : Fault
  pub logged_at : String

pub record World (Jwk : Type 0) : Type 0 where
  pub shared : Shared Jwk
  pub sinks : Sinks

module _ (X : Crates) where
  open X use {Jwk, EncodingKey}

  -- What follows the exchange: the audit, and the response. `none` is a panic.
  unfoldable pub conclude :
      RequestMoment
      → HttpRequest
      → Result TokenExchangeResult ServiceError
      → Sinks
      → Option (HttpResponse × Sinks)
  unfolding log_exchange_attempt record_of response_of extract_source_ip from_request
  conclude q req result sinks =
      elim (log_exchange_attempt q.audit_fault q.logged_at q.now
        (record_of (extract_source_ip req) q.elapsed_ms result) sinks) [
          | none ↦ none
          | some logged ↦
              some (response_of q.now (from_request req.extension q.fresh_id) result, logged)
        ]

  abbrev settled :
      Shared Jwk
      → Option (HttpResponse × Sinks)
      → Option (Result HttpResponse ServiceError × World Jwk)
  settled s none = none
  settled s (some (r, k)) = some (ok r, record { shared = s; sinks = k })

  -- `exchange`. A request without a token is refused before anything is done.
  unfoldable pub exchange :
      AppConfig
      → Moment
      → EncodingKey
      → RequestMoment
      → HttpRequest
      → Option ExchangeRequest
      → World Jwk
      → Option (Result HttpResponse ServiceError × World Jwk)
  unfolding token_of
  exchange config m key q req body w = elim (token_of req body) [
    | none ↦ some (err missing_token, w)
    | some raw_token ↦
        let (result, s) = exchange_token X config m key raw_token (body_groups body) w.shared in
        settled s (conclude q req result w.sinks)
  ]
