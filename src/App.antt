-- ===== src/App.antt =====
-- src/app.rs and src/main.rs: the start of the service, in the order of its parts, and its end. The
-- spawned tasks are recorded when they start; what each does is modelled beside its component.
pub mod Started
pub mod Ready
pub mod Routes
pub mod Shutdown
pub mod Tests
use jwt_exchange.Prelude.{ℕ, String, Bool, Option, none, some, List, [], ◌∷◌, ◌++◌}
use jwt_exchange.Prelude.Int.{ℤ}
use jwt_exchange.Result.{Result, ok, err, map_err}
use jwt_exchange.Task.{Task, lift, ◌>>=◌}
use jwt_exchange.Error.{ServiceError}
use jwt_exchange.Config.{AppConfig, ConfigError, from_env, rsa_source}
use jwt_exchange.Crates.{Crates, Client}
use jwt_exchange.Auth.Jwks.{CachedJwks}
use jwt_exchange.Auth.Jwks.Discovery.{fetch_and_cache_jwks}
use jwt_exchange.Auth.Signing.{Files, Disk, Rsa, KeyPairResult, resolve_key_pair}
use jwt_exchange.Db.Replay.{Fault}
use jwt_exchange.Db.Pool.{Failure, Storage, Host, create_pool, checkpoint_and_close}
use jwt_exchange.Logging.Splunk.{SplunkEvent}

pub data BackgroundTask : Type 0 where
  jwks_refresh jti_purge shutdown_handler : BackgroundTask
  audit_purge : (retention_days : ℤ) → BackgroundTask
  splunk_exporter : (url token : String) (skip_tls_verify : Bool) → BackgroundTask

-- The handles of the HTTP client, with its timeout in seconds, and of the pool, with the path of its
-- database. What they reach is the network of `Moment` and of `Outside`, and the database of `Machine`.
pub record HttpClient : Type 0 where
  pub timeout : ℕ

pub record PoolHandle : Type 0 where
  pub db_path : String

pub record AppState (Jwk EncodingKey : Type 0) : Type 0 where
  pub config : AppConfig
  pub jwks_cache : CachedJwks Jwk
  pub encoding_key : EncodingKey
  pub public_cert : String
  pub http_client : HttpClient
  pub pool : PoolHandle
  pub splunk_tx : Option (List SplunkEvent)

pub record BootedApp (Jwk EncodingKey : Type 0) : Type 0 where
  pub host : String
  pub port : ℕ
  pub state : AppState Jwk EncodingKey

-- What stops a start.
pub data BootError : Type 0 where
  configuration : ConfigError → BootError
  http_client : String → BootError
  pool : Failure → BootError
  key_set : ServiceError → BootError
  key_pair : String → BootError
  bind : String → BootError

-- What a start changes: the database, the files, the tasks that run, and the address of the server.
pub record Machine : Type 0 where
  pub storage : Storage
  pub files : Files
  pub tasks : List BackgroundTask
  pub bound : Option (String × ℕ)

-- What the outside answers to a start: the network at each attempt of the discovery, and at the fetch
-- of the key set.
pub record Outside : Type 0 where
  pub client_fault : Option String
  pub pool_host : Host
  pub network : ℕ → Client
  pub key_network : Client
  pub disk : Disk
  pub bind_fault : String → ℕ → Option String

abbrev pub faultless : Option String → Result (Unit {0}) String
faultless none = ok tt
faultless (some e) = err e

-- `tokio::spawn`
unfoldable pub spawn : BackgroundTask → Task Machine BootError (Unit {0})
spawn t m = (ok tt, record m { tasks = m.tasks ++ (t ∷ []) })

unfoldable pub start_pool : Host → String → Task Machine BootError (Unit {0})
start_pool h db_path m =
    let (r, s) = create_pool h db_path m.storage in (map_err pool r, record m { storage = s })

-- The exporter is started where it has an address and a token; its channel is empty.
unfoldable pub start_exporter :
    Option String → Option String → Bool → Task Machine BootError (Option (List SplunkEvent))
start_exporter none token skip m = (ok none, m)
start_exporter (some url) none skip m = (ok none, m)
start_exporter (some url) (some token) skip m =
    (ok (some []), record m { tasks = m.tasks ++ (splunk_exporter url token skip ∷ []) })

-- `HttpServer::bind`
unfoldable pub listen : Outside → String → ℕ → Task Machine BootError (Unit {0})
listen o host port m = elim (o.bind_fault host port) [
  | some e ↦ (err (bind e), m)
  | none ↦ (ok tt, record m { bound = some (host, port) })
]

module _ (X : Crates) (R : Rsa) where
  open X use {Jwk}
  open R use {EncodingKey}

  unfoldable pub start_keys : Disk → AppConfig → Task Machine BootError (KeyPairResult EncodingKey)
  unfolding rsa_source
  start_keys d config m =
      let (r, fs) = resolve_key_pair R d (rsa_source d.join config) m.files in
      (map_err key_pair r, record m { files = fs })

  abbrev pub booted :
      AppConfig
      → CachedJwks Jwk
      → KeyPairResult EncodingKey
      → Option (List SplunkEvent)
      → BootedApp Jwk EncodingKey
  booted config cache pair tx = record {
    host = config.listen_host;
    port = config.listen_port;
    state = record {
      config = config;
      jwks_cache = cache;
      encoding_key = pair.encoding_key;
      public_cert = pair.public_cert_pem;
      http_client = record { timeout = 30 };
      pool = record { db_path = config.db_path };
      splunk_tx = tx;
    };
  }

  -- What follows the keys: the purges, the exporter, the server and the handler of its end.
  unfoldable pub start_serving :
      Outside
      → AppConfig
      → CachedJwks Jwk
      → KeyPairResult EncodingKey
      → Task Machine BootError (BootedApp Jwk EncodingKey)
  unfolding spawn start_exporter listen
  start_serving o config cache pair = do
    _ ← spawn (audit_purge config.log_retention_days)
    _ ← spawn jti_purge
    tx ←
        start_exporter config.splunk_hec_url config.splunk_hec_token
          config.splunk_hec_skip_tls_verify
    _ ← listen o config.listen_host config.listen_port
    _ ← spawn shutdown_handler
    lift (ok (booted config cache pair tx))

  -- The start, given what the fetch of the key set answers once it is reached.
  unfoldable pub bootstrap_with :
      Result (CachedJwks Jwk) ServiceError
      → Outside
      → AppConfig
      → Task Machine BootError (BootedApp Jwk EncodingKey)
  unfolding start_pool spawn start_keys start_serving
  bootstrap_with fetched o config = do
    _ ← lift (map_err http_client (faultless o.client_fault))
    _ ← start_pool o.pool_host config.db_path
    cache ← lift (map_err key_set fetched)
    _ ← spawn jwks_refresh
    pair ← start_keys o.disk config
    start_serving o config cache pair

  -- `bootstrap`; `none` means that the discovery of the key set ran out of fuel.
  unfoldable pub bootstrap :
      Outside
      → AppConfig
      → Machine
      → Option (Result (BootedApp Jwk EncodingKey) BootError × Machine)
  unfolding bootstrap_with
  bootstrap o config m = elim (fetch_and_cache_jwks X config o.network o.key_network) [
    | none ↦ none
    | some fetched ↦ some (bootstrap_with fetched o config m)
  ]

  -- `main`, up to the run of the server.
  unfoldable pub launch :
      (String → Option String)
      → Outside
      → Machine
      → Option (Result (BootedApp Jwk EncodingKey) BootError × Machine)
  unfolding bootstrap
  launch env o m = elim (from_env env) [
    | err e ↦ some (err (configuration e), m)
    | ok config ↦ bootstrap o config m
  ]

-- The first step of the handler of the end: the pool is closed while the server still runs.
unfoldable pub flush : (busy : Bool) → Fault → Machine → Machine
flush busy f m = record m { storage = checkpoint_and_close busy f m.storage }

-- The second: `shutdown_handle.stop(true)`.
unfoldable pub stop : Machine → Machine
stop m = record m { bound = none }
