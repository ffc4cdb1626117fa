-- ===== src/Handlers/Probes.antt =====
-- src/handlers/cert.rs and src/handlers/health.rs: the certificate, and the state of the service.
pub mod Status
pub mod Tests
use jwt_exchange.Prelude.{ℕ, String, Bool, ◌&&◌, if◌then◌else◌}
use jwt_exchange.Result.{Result, ok, err}
use jwt_exchange.Str.{is_empty_str}
use jwt_exchange.Http.{no_headers}
use jwt_exchange.Error.{ServiceError, cert_not_loaded}
use jwt_exchange.Models.{HealthResponse, HttpResponse, health_report, plain}
use jwt_exchange.Auth.Jwks.{CachedJwks, is_healthy}

unfoldable pub cert : String → Result HttpResponse ServiceError
cert public_cert =
    if is_empty_str public_cert
    then err cert_not_loaded
    else ok (record {
      status = 200;
      headers = no_headers;
      body = plain "application/x-pem-file" public_cert;
    })

-- The report on a cache of keys and a database.
unfoldable pub report : Bool → Bool → ℕ → HealthResponse
report jwks_healthy db_healthy uptime = record {
  status = if jwks_healthy && db_healthy then "healthy" else "unhealthy";
  checks = record {
    jwks = if jwks_healthy then "ok" else "error";
    signing_key = "ok";
    database = if db_healthy then "ok" else "error";
  };
  uptime_seconds = uptime;
}

-- `health`; `db_healthy` says whether the statement `SELECT 1` succeeded.
unfoldable pub health : {Jwk : Type 0} → CachedJwks Jwk → Bool → ℕ → HttpResponse
unfolding is_healthy report
health cache db_healthy uptime = record {
  status = if is_healthy cache && db_healthy then 200 else 503;
  headers = no_headers;
  body = health_report (report (is_healthy cache) db_healthy uptime);
}
