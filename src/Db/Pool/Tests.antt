-- ===== src/Db/Pool/Tests.antt =====
-- Examples of the pool (src/db/pool.rs), on a database of the version before the composite key.
use jwt_exchange.Prelude.{
  String, ◌≡◌, refl, true, false, none, some, [], ◌∷◌, arith, str_eq, if◌then◌else◌,
}
use jwt_exchange.Prelude.Int.{pos}
use jwt_exchange.Result.{Result, ok, err}
use jwt_exchange.Db.Migrations.{
  simple, composite, Database, Migrator, apply_pending, AppliesPending, create_request_log,
  create_used_jti, create_schema_version, used_jti_composite_key,
}
use jwt_exchange.Db.Migrations.Upgrade.{Known, old, one, Upgraded}
use jwt_exchange.Db.Pool.{
  Storage, Host, failed, create_pool, create_directory, connect, set_journal_mode, run_migrations,
}
use jwt_exchange.Db.Pool.Opened.{create_pool-Upgraded, first_failure}

-- A migrator that applies what is pending, and undoes a run that fails.
abbrev ended : Result Database String → Database → Result (Unit {0}) String × Database
ended (ok db') db = (ok tt, db')
ended (err e) db = (err e, db)

unfoldable pub sound_migrator : Migrator
sound_migrator ms db = ended (apply_pending ms db) db

pub sound_migrator-AppliesPending : AppliesPending sound_migrator
unfolding sound_migrator
sound_migrator-AppliesPending ms db db' h = after (apply_pending ms db) h
  where
    after : (r : Result Database String) → ended r db ≡ (ok tt, db') → r ≡ ok db'
    after (ok d) e = ground arith
    after (err x) e = absurd (ground arith)

abbrev pub host : Host
host = record {
  parent = λ p. if str_eq p "data/db.sqlite" then some "data" else none;
  mkdir_fault = λ _. none;
  connect_fault = λ url. if str_eq url "sqlite:data/db.sqlite?mode=rwc" then none else some "no";
  journal_fault = none;
  migrator = sound_migrator;
}

abbrev pub before : Database
before = record {
  request_log = some [];
  used_jti = some (simple (record { jti = "id-1"; exp = pos 3000 } ∷ []));
  schema_version = some (1 ∷ []);
  applied = 20260101000000 ∷ [];
}

abbrev pub after : Database
after = record {
  request_log = some [];
  used_jti = some (composite (record { jti = "id-1"; has_groups = 0; exp = pos 3000 } ∷ []));
  schema_version = some (1 ∷ []);
  applied = 20260101000000 ∷ 20260501000000 ∷ 20260501000001 ∷ 20260518000000 ∷ [];
}

pub before-Known : Known before
before-Known = old [] (record { jti = "id-1"; exp = pos 3000 } ∷ []) (1 ∷ []) _ one

abbrev pub closed : Storage
closed = record {
  directories = [];
  database = before;
  main_file = before;
  wal = false;
  is_open = false;
}

abbrev pub opened : Storage
opened = record {
  directories = "data" ∷ [];
  database = after;
  main_file = before;
  wal = true;
  is_open = true;
}

pub created : create_pool host "data/db.sqlite" closed ≡ (ok tt, opened)
unfolding create_pool create_directory connect set_journal_mode run_migrations sound_migrator
    apply_pending create_request_log create_used_jti create_schema_version used_jti_composite_key
created = refl

create_pool-Upgraded_example :
    (opened.is_open ≡ true) × (opened.wal ≡ true) × Upgraded closed.database opened.database
create_pool-Upgraded_example =
    create_pool-Upgraded host "data/db.sqlite" closed opened sound_migrator-AppliesPending
      before-Known created

other_path : first_failure host "other" ≡ some (failed "failed to connect to SQLite database" "no")
other_path = refl
