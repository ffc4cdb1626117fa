-- ===== src/Db/Pool.antt =====
-- src/db/pool.rs: the pool of connections, from its creation to its end. The database is seen through
-- its connections; `main_file` is what the file without its write-ahead log holds.
pub mod Opened
pub mod Tests
use Prim.Native.String.{◌++◌ as concat}
use jwt_exchange.Prelude.{String, Bool, true, false, Option, none, some, List, [], ◌∷◌}
use jwt_exchange.Result.{Result, ok, err, map_err}
use jwt_exchange.Task.{Task, lift, ◌>>=◌}
use jwt_exchange.Db.Replay.{Fault}
use jwt_exchange.Db.Migrations.{Database, Migrator, migrations}

-- An error of `anyhow` with its context.
pub record Failure : Type 0 where
  pub context : String
  pub cause : String

pub record Storage : Type 0 where
  pub directories : List String
  pub database : Database
  pub main_file : Database
  pub wal : Bool
  pub is_open : Bool

-- What the machine answers when the pool is created: `Path::parent`, the faults of the directory, of
-- the connection to a URL and of the change of the journal, and the migrator of sqlx.
pub record Host : Type 0 where
  pub parent : String → Option String
  pub mkdir_fault : String → Fault
  pub connect_fault : String → Fault
  pub journal_fault : Fault
  pub migrator : Migrator

abbrev pub failed : String → String → Failure
failed context cause = record { context = context; cause = cause }

-- `std::fs::create_dir_all(parent)`, where the path has a parent.
unfoldable pub create_directory : Host → Option String → Task Storage Failure (Unit {0})
create_directory h none s = (ok tt, s)
create_directory h (some parent) s = elim (h.mkdir_fault parent) [
  | some e ↦ (err (failed "failed to create database directory" e), s)
  | none ↦ (ok tt, record s { directories = parent ∷ s.directories })
]

-- `SqlitePoolOptions::new().max_connections(5).connect(url)`
unfoldable pub connect : Host → String → Task Storage Failure (Unit {0})
connect h url s = elim (h.connect_fault url) [
  | some e ↦ (err (failed "failed to connect to SQLite database" e), s)
  | none ↦ (ok tt, record s { is_open = true })
]

-- `PRAGMA journal_mode=WAL`
unfoldable pub set_journal_mode : Host → Task Storage Failure (Unit {0})
set_journal_mode h s = elim h.journal_fault [
  | some e ↦ (err (failed "failed to set WAL journal mode" e), s)
  | none ↦ (ok tt, record s { wal = true })
]

unfoldable pub run_migrations : Host → Task Storage Failure (Unit {0})
run_migrations h s =
    let (r, db) = h.migrator migrations s.database in
    (map_err (failed "failed to run migrations") r, record s { database = db })

-- `format!("sqlite:{db_path}?mode=rwc")`
abbrev pub database_url : String → String
database_url db_path = concat "sqlite:" (concat db_path "?mode=rwc")

unfoldable pub create_pool : Host → String → Task Storage Failure (Unit {0})
create_pool h db_path = do
  _ ← create_directory h (h.parent db_path)
  _ ← connect h (database_url db_path)
  _ ← set_journal_mode h
  run_migrations h

-- The fault of a statement: that of the database, and any on a pool that is closed.
unfoldable pub fault_on : Storage → Fault → Fault
fault_on s f = elim s.is_open [
  | true ↦ f
  | false ↦ some "attempted to acquire a connection on a closed pool"
]

-- `check_connection`: SELECT 1
unfoldable pub check_connection : Storage → Fault → Result (Unit {0}) String
unfolding fault_on
check_connection s f = elim (fault_on s f) [ none ↦ ok tt | some e ↦ err e ]

-- `PRAGMA wal_checkpoint(TRUNCATE)`: where another connection keeps it from running, the statement
-- succeeds all the same, with a row that says so.
unfoldable pub checkpoint : (busy : Bool) → Fault → Storage → Storage
checkpoint busy (some e) s = s
checkpoint true none s = s
checkpoint false none s = record s { main_file = s.database }

-- `checkpoint_and_close`: a fault of the checkpoint is logged, and the pool is closed.
unfoldable pub checkpoint_and_close : (busy : Bool) → Fault → Storage → Storage
unfolding checkpoint
checkpoint_and_close busy f s = record (checkpoint busy f s) { is_open = false }
