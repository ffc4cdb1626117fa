-- ===== src/App/Tests.antt =====
-- A start of the service, a request to it and its end, and the theorems of src/app.rs at them.
use jwt_exchange.Prelude.{String, ◌≡◌, ◌≢◌, refl, true, false, none, some, List, [], ◌∷◌, ◌⊎◌}
use jwt_exchange.Prelude.Int.{pos}
use jwt_exchange.Result.{Result, ok, err}
use jwt_exchange.Http.{header, no_headers}
use jwt_exchange.Error.{ServiceError}
use jwt_exchange.Models.{HttpResponse, plain}
use jwt_exchange.Config.{AppConfig, rsa_source}
use jwt_exchange.Crates.Sample.{sample, answering}
use mathlib.Core.Option.{bind}
use jwt_exchange.Maps.{lookup, insert}
use jwt_exchange.Auth.Jwks.{
  CachedJwks, fetch_jwks_uri_from_well_known, fetch_jwks_with_etag, index_keys,
}
use jwt_exchange.Auth.Jwks.Discovery.{fetch_and_cache_jwks}
use jwt_exchange.Auth.Signing.{
  exists, resolve_key_pair, generate_and_save_key_pair, save_key_pair, write, set_file_permissions,
}
use jwt_exchange.Auth.Signing.Tests.{disk, rsa}
use jwt_exchange.Db.Replay.{Fault, no_faults}
use jwt_exchange.Db.AuditLog.{AuditRecord, LogRow, insert_audit_log}
use jwt_exchange.Db.Migrations.{
  apply_pending, create_request_log, create_used_jti, create_schema_version, used_jti_composite_key,
}
use jwt_exchange.Db.Pool.{
  fault_on, check_connection, create_pool, create_directory, connect, set_journal_mode,
  run_migrations,
}
use jwt_exchange.Db.Pool.Tests.{
  sound_migrator, sound_migrator-AppliesPending, host, before-Known, closed, opened,
}
use jwt_exchange.Services.Mint.{Moment, TokenExchangeResult}
use jwt_exchange.Services.Exchange.{exchange_token}
use jwt_exchange.Services.Exchange.Tests.{config, moment, token, fresh}
use jwt_exchange.Handlers.Exchange.Tests.{request, request_moment, world}
use jwt_exchange.Handlers.Exchange.{World}
use jwt_exchange.App.{
  jwks_refresh, jti_purge, shutdown_handler, audit_purge, BootedApp, Machine, Outside, bootstrap,
  bootstrap_with, booted, flush,
}
use jwt_exchange.App.Started.{Ends, bootstrap_cases}
use jwt_exchange.App.Ready.{StillUsed, bootstrap_ready}
use jwt_exchange.App.Shutdown.{faults_on, shutdown_window}
use jwt_exchange.App.Routes.{Incoming, Visit, serve, serve_outcome}

abbrev local : AppConfig
local = record config { db_path = "data/db.sqlite" }

abbrev outside : Outside
outside = record {
  client_fault = none;
  pool_host = host;
  network = λ n. answering;
  key_network = answering;
  disk = disk;
  bind_fault = λ host port. none;
}

abbrev off : Machine
off = record { storage = closed; files = []; tasks = []; bound = none }

bootstrap_cases_example :
    (fetched : Result (CachedJwks String) ServiceError) × (fetch_and_cache_jwks sample local
        outside.network outside.key_network
      ≡ some fetched)
    × (bootstrap sample rsa outside local off
        ≡ some (bootstrap_with sample rsa fetched outside local off))
    × Ends sample rsa outside local fetched off
        (bootstrap_with sample rsa fetched outside local off)
bootstrap_cases_example = bootstrap_cases sample rsa outside local off

abbrev cache : CachedJwks String
cache = record {
  keys_by_kid = ("k1", "k1") ∷ [];
  etag = none;
  jwks_uri = "https://idp/keys";
  last_force_refresh = none;
  consecutive_force_refresh_failures = 0;
}

abbrev on : Machine
on = record {
  storage = opened;
  files =
      ("./certs/private.pem", record { content = "pem"; mode = 384 })
      ∷ ("./certs/public.pem", record { content = "cert"; mode = 420 })
      ∷ [];
  tasks = jwks_refresh ∷ audit_purge (pos 60) ∷ jti_purge ∷ shutdown_handler ∷ [];
  bound = some ("0.0.0.0", 8080);
}

abbrev app : BootedApp String String
app = booted sample rsa local cache (record { encoding_key = "pem"; public_cert_pem = "cert" }) none

started : bootstrap sample rsa outside local off ≡ some (ok app, on)
unfolding bootstrap fetch_and_cache_jwks fetch_jwks_uri_from_well_known fetch_jwks_with_etag
    index_keys bind create_pool create_directory connect set_journal_mode run_migrations
    sound_migrator apply_pending create_request_log create_used_jti create_schema_version
    used_jti_composite_key rsa_source resolve_key_pair exists generate_and_save_key_pair
    save_key_pair write set_file_permissions insert lookup
started = refl

bootstrap_ready_example :
    (on.storage.is_open ≡ true) × StillUsed off.storage.database on.storage.database
bootstrap_ready_example =
    bootstrap_ready sample rsa outside local off on app sound_migrator-AppliesPending before-Known
      started

abbrev draining : Moment
draining = record moment { faults = faults_on (flush false none on).storage no_faults }

shutdown_window_example :
    ((flush false none on).bound ≡ on.bound)
    × ((result : TokenExchangeResult)
        → (exchange_token sample config draining "key" token none fresh).0 ≢ ok result)
    × ((g : Fault) (at : String) (r : AuditRecord) (log : List LogRow)
        → insert_audit_log (fault_on (flush false none on).storage g) at r log ≡ log)
    × (check_connection (flush false none on).storage none
        ≡ err "attempted to acquire a connection on a closed pool")
shutdown_window_example =
    shutdown_window sample false none on config draining no_faults "key" token none fresh refl

abbrev missing : Incoming → HttpResponse
missing i = record { status = 404; headers = no_headers; body = plain "text/plain" "" }

abbrev asked : Incoming
asked = record { method = "GET"; path = "/api/v1/cert"; http = request; body = none }

abbrev visit : Visit
visit = record {
  now = "now";
  request_id = "id-3";
  moment = moment;
  attempt = request_moment;
  ping_fault = none;
  uptime = 5;
}

serve_outcome_example :
    ((r : HttpResponse) (w' : World String)
      → serve sample missing app.state opened visit asked world ≡ some (r, w')
      → header r.headers "x-request-id" ≡ some "id-3")
    × (((asked.path ≡ "/api/v1/exchange") × (asked.method ≡ "POST"))
        ⊎ ((r : HttpResponse) × (serve sample missing app.state opened visit asked world
              ≡ some (r, world))))
serve_outcome_example = serve_outcome sample missing app.state opened visit asked world
