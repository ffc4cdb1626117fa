-- ===== src/App/Started.antt =====
-- What a start of src/app.rs leaves, whether it succeeds or fails.
use mathlib.Core.List.{append_assoc, append-nil}
use jwt_exchange.Prelude.{
  String, ◌≡◌, refl, sym, ap, ◌∙◌, Bool, Option, none, some, List, [], ◌∷◌, ◌++◌, Option-cases, inl,
  inr,
}
use jwt_exchange.Result.{Result, ok, err, map_err}
use jwt_exchange.Task.{continue, lift, ◌>>=◌}
use jwt_exchange.Error.{ServiceError}
use jwt_exchange.Config.{AppConfig, rsa_source}
use jwt_exchange.Crates.{Crates}
use mathlib.Core.Path.{subst}
use jwt_exchange.Auth.Jwks.{CachedJwks}
use jwt_exchange.Auth.Jwks.Discovery.{
  fetch_and_cache_jwks, first_fetch, fetch_and_cache_jwks_returns,
}
use jwt_exchange.Auth.Signing.{Files, Rsa, KeyPairResult, resolve_key_pair}
use jwt_exchange.Db.Pool.{Failure, Storage, create_pool}
use jwt_exchange.Logging.Splunk.{SplunkEvent}
use jwt_exchange.App.{
  BackgroundTask, jwks_refresh, jti_purge, shutdown_handler, audit_purge, splunk_exporter,
  BootedApp, BootError, configuration, http_client, pool, key_set, key_pair, bind, Machine, Outside,
  faultless, spawn, start_pool, start_exporter, listen, start_keys, booted, start_serving,
  bootstrap_with, bootstrap,
}

abbrev pub exporter : Option String → Option String → Bool → List BackgroundTask
exporter (some url) (some token) skip = splunk_exporter url token skip ∷ []
exporter (some url) none skip = []
exporter none token skip = []

abbrev pub channel : Option String → Option String → Option (List SplunkEvent)
channel (some url) (some token) = some []
channel (some url) none = none
channel none token = none

-- The tasks that run once the keys are there.
abbrev pub workers : AppConfig → List BackgroundTask
workers config =
    audit_purge config.log_retention_days
    ∷ jti_purge
    ∷ exporter config.splunk_hec_url config.splunk_hec_token config.splunk_hec_skip_tls_verify

-- The tasks that a start has spawned before each failure.
abbrev pub left_by : AppConfig → BootError → List BackgroundTask
left_by config (configuration e) = []
left_by config (http_client e) = []
left_by config (pool e) = []
left_by config (key_set e) = []
left_by config (key_pair e) = jwks_refresh ∷ []
left_by config (bind e) = jwks_refresh ∷ workers config

start_exporter_lem :
    (url token : Option String) (skip : Bool) (m : Machine)
    → start_exporter url token skip m
      ≡ (ok (channel url token), record m { tasks = m.tasks ++ exporter url token skip })
unfolding start_exporter
start_exporter_lem none token skip m = rw (append-nil m.tasks) refl
start_exporter_lem (some url) none skip m = rw (append-nil m.tasks) refl
start_exporter_lem (some url) (some token) skip m = refl

-- The tasks in the order in which they are appended.
three_parts :
    (ts later : List BackgroundTask) (a b : BackgroundTask)
    → ((ts ++ (a ∷ [])) ++ (b ∷ [])) ++ later ≡ ts ++ (a ∷ b ∷ later)
three_parts ts later a b = simp append_assoc

module _ (X : Crates) (R : Rsa) where
  open X use {Jwk}
  open R use {EncodingKey}

  module _ (o : Outside) (config : AppConfig) where
    serving-ok :
        (cache : CachedJwks Jwk) (pair : KeyPairResult EncodingKey) (m : Machine)
        → o.bind_fault config.listen_host config.listen_port ≡ none
        → start_serving X R o config cache pair m ≡ (
          ok (booted X R config cache pair (channel config.splunk_hec_url config.splunk_hec_token)),
          record m {
            tasks = (m.tasks ++ workers config) ++ (shutdown_handler ∷ []);
            bound = some (config.listen_host, config.listen_port);
          },
        )
    unfolding start_serving spawn listen
    serving-ok cache pair m n =
        rw
          (
            start_exporter_lem config.splunk_hec_url config.splunk_hec_token
                config.splunk_hec_skip_tls_verify
                (record m {
                  tasks =
                      (m.tasks ++ (audit_purge config.log_retention_days ∷ [])) ++ (jti_purge ∷ []);
                }),
            n,
            listen,
            three_parts m.tasks
                (exporter config.splunk_hec_url config.splunk_hec_token
                  config.splunk_hec_skip_tls_verify)
                (audit_purge config.log_retention_days) jti_purge,
          )
          refl

    serving-err :
        (cache : CachedJwks Jwk) (pair : KeyPairResult EncodingKey) (m : Machine) (e : String)
        → o.bind_fault config.listen_host config.listen_port ≡ some e
        → start_serving X R o config cache pair m
          ≡ (err (bind e), record m { tasks = m.tasks ++ workers config })
    unfolding start_serving spawn listen
    serving-err cache pair m e n =
        rw
          (
            start_exporter_lem config.splunk_hec_url config.splunk_hec_token
                config.splunk_hec_skip_tls_verify
                (record m {
                  tasks =
                      (m.tasks ++ (audit_purge config.log_retention_days ∷ [])) ++ (jti_purge ∷ []);
                }),
            n,
            listen,
            three_parts m.tasks
                (exporter config.splunk_hec_url config.splunk_hec_token
                  config.splunk_hec_skip_tls_verify)
                (audit_purge config.log_retention_days) jti_purge,
          )
          refl

    -- A start that has succeeded, from a machine to a machine: the pool, the key set and the key pair
    -- are those that their components answer, the exporter's channel is there where it is configured,
    -- the tasks run in the order of the code after those of before, and the server is bound.
    pub record IsStarted (fetched : Result (CachedJwks Jwk) ServiceError) (m m' : Machine)
        (b : BootedApp Jwk EncodingKey) : Type 0 where
      pub pair : KeyPairResult EncodingKey
      pub pooled : create_pool o.pool_host config.db_path m.storage ≡ (ok tt, m'.storage)
      pub cached : fetched ≡ ok b.state.jwks_cache
      pub keyed :
          resolve_key_pair R o.disk (rsa_source o.disk.join config) m.files ≡ (ok pair, m'.files)
      pub built :
          b
          ≡ booted X R config b.state.jwks_cache pair
              (channel config.splunk_hec_url config.splunk_hec_token)
      pub running :
          m'.tasks ≡ ((m.tasks ++ (jwks_refresh ∷ [])) ++ workers config) ++ (shutdown_handler ∷ [])
      pub listening : m'.bound ≡ some (config.listen_host, config.listen_port)

    -- How a start ends: started, or with an error that leaves the tasks which the code has spawned
    -- before it, and no server.
    abbrev pub Ends :
        Result (CachedJwks Jwk) ServiceError
        → Machine
        → Result (BootedApp Jwk EncodingKey) BootError × Machine
        → Type 0
    Ends fetched m (ok b, m') = IsStarted fetched m m' b
    Ends fetched m (err e, m') = (m'.tasks ≡ m.tasks ++ left_by config e) × (m'.bound ≡ m.bound)

    -- The start after its pool and its key set.
    keys_on :
        (fetched : Result (CachedJwks Jwk) ServiceError) (cache : CachedJwks Jwk) (m m₁ : Machine)
        → fetched ≡ ok cache
        → create_pool o.pool_host config.db_path m.storage ≡ (ok tt, m₁.storage)
        → m₁.tasks ≡ m.tasks
        → m₁.bound ≡ m.bound
        → m₁.files ≡ m.files
        → Ends fetched m (
            continue
              (start_keys X R o.disk config (record m₁ { tasks = m₁.tasks ++ (jwks_refresh ∷ []) }))
              (start_serving X R o config cache))
    unfolding start_keys
    keys_on fetched cache m m₁ f p t b k =
        after (resolve_key_pair R o.disk (rsa_source o.disk.join config) m₁.files) refl
      where
        after :
            (q : Result (KeyPairResult EncodingKey) String × Files)
            → resolve_key_pair R o.disk (rsa_source o.disk.join config) m₁.files ≡ q
            → Ends fetched m (
                continue
                  (
                    map_err key_pair q.0,
                    record m₁ { files = q.1; tasks = m₁.tasks ++ (jwks_refresh ∷ []) },
                  )
                  (start_serving X R o config cache))
        after (err e, fs) q = (rw t refl, b)
        after (ok pair, fs) q =
            elim (Option-cases (o.bind_fault config.listen_host config.listen_port)) [
              | inl n ↦ subst (Ends fetched m) (sym (serving-ok cache pair _ n)) (record {
                pair = pair;
                pooled = p;
                cached = f;
                keyed = ap (resolve_key_pair R o.disk (rsa_source o.disk.join config)) (sym k) ∙ q;
                built = refl;
                running = rw t refl;
                listening = refl;
              })
              | inr (e, n) ↦
                  subst (Ends fetched m) (sym (serving-err cache pair _ e n))
                    (rw t (append_assoc m.tasks (jwks_refresh ∷ []) (workers config)), b)
            ]

    bootstrap_with-Ends :
        (fetched : Result (CachedJwks Jwk) ServiceError) (m : Machine)
        → Ends fetched m (bootstrap_with X R fetched o config m)
    unfolding bootstrap_with start_pool spawn
    bootstrap_with-Ends fetched m = from o.client_fault
      where
        after :
            (q : Result (Unit {0}) Failure × Storage) (g : Result (CachedJwks Jwk) ServiceError)
            → create_pool o.pool_host config.db_path m.storage ≡ q
            → fetched ≡ g
            → Ends fetched m (
                continue
                  (map_err pool q.0, record m { storage = q.1 })
                  (λ _. lift (map_err key_set g) >>= λ cache. spawn jwks_refresh >>= λ _.
                    start_keys X R o.disk config >>= λ pair. start_serving X R o config cache pair))
        after (err e, st) g p f = (sym (append-nil m.tasks), refl)
        after (ok _, st) (err e) p f = (sym (append-nil m.tasks), refl)
        after (ok _, st) (ok cache) p f =
            keys_on fetched cache m (record m { storage = st }) f p refl refl refl

        from :
            (c : Option String)
            → Ends fetched m (
                continue
                  (map_err http_client (faultless c), m)
                  (λ _. start_pool o.pool_host config.db_path >>= λ _.
                    lift (map_err key_set fetched) >>= λ cache. spawn jwks_refresh >>= λ _.
                    start_keys X R o.disk config >>= λ pair. start_serving X R o config cache pair))
        from (some e) = (sym (append-nil m.tasks), refl)
        from none = after (create_pool o.pool_host config.db_path m.storage) fetched refl refl

    -- Every start ends, whatever the network answers: it is started with the key set, the pool and the
    -- key pair that its components answer, with the exporter exactly where both its address and its
    -- token are set, the workers in their order and the server bound; or it fails, with no server and
    -- only the tasks that the code spawns before the failure: none before the key set, the refresh
    -- where the key pair fails, and all workers where the address cannot be bound.
    pub bootstrap_cases :
        (m : Machine)
        → (fetched : Result (CachedJwks Jwk) ServiceError) × (fetch_and_cache_jwks X config
              o.network o.key_network
            ≡ some fetched)
          × (bootstrap X R o config m ≡ some (bootstrap_with X R fetched o config m))
          × Ends fetched m (bootstrap_with X R fetched o config m)
    unfolding bootstrap
    bootstrap_cases m =
        let fetched = first_fetch X config o.network o.key_network in
        let e = fetch_and_cache_jwks_returns X config o.network o.key_network in
        (fetched, e, rw (e, bootstrap) refl, bootstrap_with-Ends fetched m)
