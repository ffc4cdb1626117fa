-- ===== src/Db/Migrations.antt =====
-- migrations/ and `run_migrations` of src/db/pool.rs: the schema of the database, and the four files
-- of statements that bring it up to date. Indexes are left out, since no statement depends on them.
pub mod Upgrade
use jwt_exchange.Prelude.{
  ℕ, String, ◌≡◌, Bool, Option, none, some, List, [], ◌∷◌, ◌++◌, any, ◌==◌, if◌then◌else◌,
}
use jwt_exchange.Prelude.Int.{ℤ}
use jwt_exchange.Result.{Result, ok, err, ◌>>=◌}
use jwt_exchange.Db.Replay.{Table, insert_or_ignore}
use jwt_exchange.Db.AuditLog.{LogRow}

-- A row of `used_jti` before the composite key.
pub record JtiRow : Type 0 where
  pub jti : String
  pub exp : ℤ

-- The two shapes of the table `used_jti`.
pub data UsedJti : Type 0 where
  simple : List JtiRow → UsedJti
  composite : Table → UsedJti

-- The tables that there are, and the versions of the migrations that have run.
pub record Database : Type 0 where
  pub request_log : Option (List LogRow)
  pub used_jti : Option UsedJti
  pub schema_version : Option (List ℕ)
  pub applied : List ℕ

abbrev pub Migration : Type 0
Migration = Database → Result Database String

-- `CREATE TABLE IF NOT EXISTS`
abbrev pub create {ℓ} : {A : Type ℓ} → A → Option A → Option A
create empty none = some empty
create empty (some t) = some t

-- `INSERT OR IGNORE INTO schema_version (version) VALUES (1)`
abbrev pub first_version : Option (List ℕ) → Result (List ℕ) String
first_version none = err "no such table: schema_version"
first_version (some vs) = ok (if any (λ v. v == 1) vs then vs else vs ++ (1 ∷ []))

-- 20260501000001_create_schema_version.sql
unfoldable pub create_schema_version : Migration
create_schema_version db = do
  vs ← first_version (create [] db.schema_version)
  ok (record db { schema_version = some vs })

-- 20260501000000_create_used_jti.sql
unfoldable pub create_used_jti : Migration
create_used_jti db = ok (record db { used_jti = create (simple []) db.used_jti })

-- 20260101000000_create_request_log.sql
unfoldable pub create_request_log : Migration
create_request_log db = do
  vs ← first_version (create [] db.schema_version)
  ok (record db {
    request_log = create [] db.request_log;
    used_jti = create (simple []) db.used_jti;
    schema_version = some vs;
  })

-- INSERT OR IGNORE INTO used_jti_new ... SELECT jti, 0, exp FROM used_jti, over the rows that are left.
unfoldable pub copy_rows : List JtiRow → Table → Table
unfolding insert_or_ignore
copy_rows [] t = t
copy_rows (r ∷ rows) t =
    copy_rows rows (insert_or_ignore none (record { jti = r.jti; has_groups = 0; exp = r.exp }) t).1

-- `SELECT jti, exp FROM used_jti`, on either shape.
abbrev pub selected : UsedJti → List JtiRow
selected (simple rows) = rows
selected (composite []) = []
selected (composite (r ∷ t)) = record { jti = r.jti; exp = r.exp } ∷ selected (composite t)

-- 20260518000000_used_jti_composite_key.sql
abbrev recreated : Option UsedJti → Result Table String
recreated none = err "no such table: used_jti"
recreated (some u) = ok (copy_rows (selected u) [])

unfoldable pub used_jti_composite_key : Migration
unfolding copy_rows
used_jti_composite_key db = do
  t ← recreated db.used_jti
  ok (record db { used_jti = some (composite t) })

-- The files, by their versions.
abbrev pub migrations : List (ℕ × Migration)
migrations =
    (20260101000000, create_request_log)
    ∷ (20260501000000, create_used_jti)
    ∷ (20260501000001, create_schema_version)
    ∷ (20260518000000, used_jti_composite_key)
    ∷ []

-- `sqlx::migrate!(...).run(pool)`, a function of a dependency.
abbrev pub Migrator : Type 0
Migrator = List (ℕ × Migration) → Database → Result (Unit {0}) String × Database

-- What sqlx documents of a run: the migrations whose version is not recorded, in their order, each
-- recorded after it.
abbrev pub recorded : ℕ → Database → Database
recorded version db = record db { applied = db.applied ++ (version ∷ []) }

unfoldable pub apply_pending : List (ℕ × Migration) → Database → Result Database String
apply_pending [] db = ok db
apply_pending ((version, migration) ∷ rest) db =
    let skipped = apply_pending rest db in
    let taken = (do next ← migration db; apply_pending rest (recorded version next)) in
    if any (λ v. v == version) db.applied then skipped else taken

-- A run that succeeds has applied what was pending.
abbrev pub AppliesPending : Migrator → Type 0
AppliesPending migrator =
    (ms : List (ℕ × Migration)) (db db' : Database)
    → migrator ms db ≡ (ok tt, db')
    → apply_pending ms db ≡ ok db'
