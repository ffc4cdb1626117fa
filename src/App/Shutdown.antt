-- ===== src/App/Shutdown.antt =====
-- The handler of the end in src/app.rs: the pool is closed before the server is stopped.
use jwt_exchange.Prelude.{String, ◌≡◌, ◌≢◌, refl, ap, Bool, true, false, Option, none, some, List}
use jwt_exchange.Prelude.Int.{ℤ}
use jwt_exchange.Result.{ok, err}
use jwt_exchange.Crates.{Crates}
use jwt_exchange.Config.{AppConfig}
use jwt_exchange.Db.Replay.{Fault, Faults, Table, select_jti, replay_write, check_and_record_jti}
use jwt_exchange.Db.AuditLog.{AuditRecord, LogRow, insert_audit_log}
use jwt_exchange.Db.Pool.{Storage, fault_on, checkpoint_and_close, check_connection}
use jwt_exchange.Services.Mint.{Moment, TokenExchangeResult, has_groups, replay_id_of, expiry_of}
use jwt_exchange.Services.Exchange.{Shared, exchange_token}
use jwt_exchange.Services.Exchange.Minted.{exchange_token-IsMinted}
use jwt_exchange.App.{Machine, flush}

-- The faults of the two statements of a call on a pool, from those of the database.
abbrev pub faults_on : Storage → Faults → Faults
faults_on s f = record { read = fault_on s f.read; write = fault_on s f.write }

flushed-fault :
    (busy : Bool) (e : Fault) (m : Machine) (f : Fault)
    → fault_on (flush busy e m).storage f
      ≡ some "attempted to acquire a connection on a closed pool"
unfolding flush checkpoint_and_close fault_on
flushed-fault busy e m f = refl

faulty_call :
    (f : Faults) (a b jti : String) (exp : ℤ) (allow g : Bool) (t : Table)
    → f.read ≡ some a
    → f.write ≡ some b
    → (check_and_record_jti f jti exp allow g t).0 ≢ ok false
unfolding check_and_record_jti replay_write select_jti
faulty_call f a b jti exp true g t r w = rw w (λ h. cc)
faulty_call f a b jti exp false g t r w = rw r (λ h. cc)

module _ (X : Crates) where
  open X use {Jwk, EncodingKey}

  -- Between the two steps of the end the server is still bound, but no exchange of that time gives a
  -- token, the probe of the database fails, and no record of an attempt is kept.
  pub shutdown_window :
      (busy : Bool) (e : Fault) (machine : Machine) (config : AppConfig) (m : Moment) (f : Faults)
      (key : EncodingKey) (raw_token : String) (requested : Option (List String)) (s : Shared Jwk)
      → m.faults ≡ faults_on (flush busy e machine).storage f
      → ((flush busy e machine).bound ≡ machine.bound)
        × ((result : TokenExchangeResult)
            → (exchange_token X config m key raw_token requested s).0 ≢ ok result)
        × ((g : Fault) (at : String) (r : AuditRecord) (log : List LogRow)
            → insert_audit_log (fault_on (flush busy e machine).storage g) at r log ≡ log)
        × (check_connection (flush busy e machine).storage none
            ≡ err "attempted to acquire a connection on a closed pool")
  unfolding flush check_connection insert_audit_log checkpoint_and_close fault_on
  shutdown_window busy e machine config m f key raw_token requested s same = (
    refl,
    (λ result h.
        let s' = (exchange_token X config m key raw_token requested s).1 in
        let t =
          exchange_token-IsMinted X config m key raw_token requested s s' result (λ i. (h i, s')) in
        faulty_call m.faults _ _ (replay_id_of X raw_token t.claims) (expiry_of X t.claims)
          config.allow_replay (has_groups requested) s.used (ap (λ (x : Faults). x.read) same)
          (ap (λ (x : Faults). x.write) same) (ap (λ p. p.0) t.fresh)),
    (λ g at r log. refl),
    refl,
  )
