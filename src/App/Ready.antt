-- ===== src/App/Ready.antt =====
-- What a started service of src/app.rs begins with: the database that the migrations of src/db/pool.rs
-- have led to this version, and the identifiers that were used before.
use mathlib.Core.Path.{subst}
use jwt_exchange.Prelude.{
  String, ◌≡◌, refl, sym, ap, ◌∙◌, Bool, true, false, Option, none, some, any,
}
use jwt_exchange.Prelude.Int.{ℤ}
use jwt_exchange.Result.{Result, ok}
use jwt_exchange.Error.{ServiceError}
use jwt_exchange.Config.{AppConfig}
use jwt_exchange.Auth.Jwks.{CachedJwks}
use jwt_exchange.Crates.{Crates}
use jwt_exchange.Auth.Signing.{Rsa}
use jwt_exchange.Db.Replay.{Faults, has_jti, select_jti, check_and_record_jti}
use jwt_exchange.Db.Migrations.{Database, AppliesPending}
use jwt_exchange.Db.Migrations.Upgrade.{Known, IsCurrent, used_in}
use jwt_exchange.Db.Pool.Opened.{create_pool-Upgraded}
use jwt_exchange.App.{BootedApp, BootError, Machine, Outside, bootstrap_with, bootstrap}
use jwt_exchange.App.Started.{IsStarted, Ends, bootstrap_cases}

known_is_replay :
    (f : Faults) (jti : String) (exp : ℤ) (g : Bool) (db : Database) (c : IsCurrent db)
    → used_in jti db.used_jti ≡ true
    → f.read ≡ none
    → (check_and_record_jti f jti exp false g c.table).0 ≡ ok true
unfolding check_and_record_jti select_jti
known_is_replay f jti exp g db c u n =
    let found : any (has_jti jti) c.table ≡ true = sym (ap (used_in jti) c.used) ∙ u in
    rw (n, found) refl

-- Each identifier that was used before a start is a replay for the strict calls after it.
abbrev pub StillUsed : Database → Database → Type 0
StillUsed db db' =
    (c : IsCurrent db') × ((f : Faults) (jti : String) (exp : ℤ) (g : Bool)
      → used_in jti db.used_jti ≡ true
      → f.read ≡ none
      → (check_and_record_jti f jti exp false g c.table).0 ≡ ok true)

module _ (X : Crates) (R : Rsa) where
  open X use {Jwk}
  open R use {EncodingKey}

  some_inj :
      (p q : Result (BootedApp Jwk EncodingKey) BootError × Machine)
      → ◌≡◌ {A = Option (Result (BootedApp Jwk EncodingKey) BootError × Machine)} (some p) (some q)
      → p ≡ q
  some_inj p q e = cc

  bootstrap-IsStarted :
      (o : Outside) (config : AppConfig) (m m' : Machine) (b : BootedApp Jwk EncodingKey)
      → bootstrap X R o config m ≡ some (ok b, m')
      → (fetched : Result (CachedJwks Jwk) ServiceError) × IsStarted X R o config fetched m m' b
  bootstrap-IsStarted o config m m' b e =
      let (fetched, _, ran, ends) = bootstrap_cases X R o config m in
      (
        fetched,
        subst (Ends X R o config fetched m)
            (some_inj (bootstrap_with X R fetched o config m) (ok b, m') (sym ran ∙ e)) ends,
      )

  -- A service that has started has an open pool and the two tables of this version, and every
  -- identifier that was used before the start, under the old key of the table or the new one, is a
  -- replay for each strict call on the table that it starts with, if the database was known and the
  -- migrator applies what is pending.
  pub bootstrap_ready :
      (o : Outside) (config : AppConfig) (m m' : Machine) (b : BootedApp Jwk EncodingKey)
      → AppliesPending o.pool_host.migrator
      → Known m.storage.database
      → bootstrap X R o config m ≡ some (ok b, m')
      → (m'.storage.is_open ≡ true) × StillUsed m.storage.database m'.storage.database
  bootstrap_ready o config m m' b applies k e =
      let (_, s) = bootstrap-IsStarted o config m m' b e in
      let (opened, _, (current, used, _)) =
        create_pool-Upgraded o.pool_host config.db_path m.storage m'.storage applies k s.pooled in
      (
        opened,
        (
          current,
          λ f jti exp g u n.
              known_is_replay f jti exp g m'.storage.database current (used jti ∙ u) n,
        ),
      )
