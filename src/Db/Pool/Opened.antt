-- ===== src/Db/Pool/Opened.antt =====
-- What `create_pool` of src/db/pool.rs leaves, and what a pool answers after its end.
use mathlib.Core.Path.{subst}
use jwt_exchange.Prelude.{
  String, ◌≡◌, ◌≢◌, refl, sym, ap, ◌∙◌, Bool, true, false, Option, none, some, ◌∷◌, arith,
  Option-cases, or_else, inl, inr, ◌⊎◌,
}
use jwt_exchange.Result.{Result, ok, err, map_err, map_err-eq-ok}
use jwt_exchange.Task.{continue, ◌>>=◌, continue-eq-ok}
use jwt_exchange.Db.Replay.{Fault}
use jwt_exchange.Db.Migrations.{Database, migrations, AppliesPending}
use jwt_exchange.Db.Migrations.Upgrade.{Known, Upgraded, apply_pending-Upgraded}
use jwt_exchange.Db.Pool.{
  Failure, Storage, Host, failed, create_directory, connect, set_journal_mode, run_migrations,
  database_url, create_pool, fault_on, check_connection, checkpoint, checkpoint_and_close,
}

module _ (h : Host) where
  directory-kept :
      (o : Option String) (s : Storage)
      → ((create_directory h o s).1.database ≡ s.database)
        × ((create_directory h o s).1.is_open ≡ s.is_open)
  unfolding create_directory
  directory-kept none s = (refl, refl)
  directory-kept (some p) s = elim (Option-cases (h.mkdir_fault p)) [
    | inl n ↦ rw (n, create_directory) (refl, refl)
    | inr (e, n) ↦ rw (n, create_directory) (refl, refl)
  ]

  connect-kept : (url : String) (s : Storage) → (connect h url s).1.database ≡ s.database
  unfolding connect
  connect-kept url s = elim (Option-cases (h.connect_fault url)) [
    | inl n ↦ rw (n, connect) refl
    | inr (e, n) ↦ rw (n, connect) refl
  ]

  connect-open : (url : String) (s s' : Storage) → connect h url s ≡ (ok tt, s') → s'.is_open ≡ true
  unfolding connect
  connect-open url s s' e = ground arith

  journal-kept :
      (s s' : Storage)
      → set_journal_mode h s ≡ (ok tt, s')
      → (s'.database ≡ s.database) × (s'.is_open ≡ s.is_open) × (s'.wal ≡ true)
  unfolding set_journal_mode
  journal-kept s s' e = ground arith

  migrations-ok :
      (s s' : Storage)
      → run_migrations h s ≡ (ok tt, s')
      → (h.migrator migrations s.database ≡ (ok tt, s'.database))
        × (s'.is_open ≡ s.is_open)
        × (s'.wal ≡ s.wal)
  unfolding run_migrations
  migrations-ok s s' e =
      let answer =
        map_err-eq-ok (failed "failed to run migrations") (h.migrator migrations s.database).0
          (ap (λ z. z.0) e) in
      let left = ap (λ z. z.1.database) e in
      ((λ i. (answer i, left i)), sym (ap (λ z. z.1.is_open) e), sym (ap (λ z. z.1.wal) e))

  -- A pool that was created on a known database is open, writes ahead, and its database is of this
  -- version with the same entries of the audit and the same used identifiers, if the migrator applies
  -- what is pending.
  pub create_pool-Upgraded :
      (db_path : String) (s s' : Storage)
      → AppliesPending h.migrator
      → Known s.database
      → create_pool h db_path s ≡ (ok tt, s')
      → (s'.is_open ≡ true) × (s'.wal ≡ true) × Upgraded s.database s'.database
  unfolding create_pool
  create_pool-Upgraded db_path s s' applies k e =
      let (_, p₁, e₁) = continue-eq-ok (create_directory h (h.parent db_path) s) _ e in
      let s₁ = (create_directory h (h.parent db_path) s).1 in
      let (_, p₂, e₂) = continue-eq-ok (connect h (database_url db_path) s₁) _ e₁ in
      let s₂ = (connect h (database_url db_path) s₁).1 in
      let (_, p₃, e₃) = continue-eq-ok (set_journal_mode h s₂) _ e₂ in
      let s₃ = (set_journal_mode h s₂).1 in
      let (same, opened, ahead) = journal-kept s₂ s₃ p₃ in
      let (ran, still, wal) = migrations-ok s₃ s' e₃ in
      let kept : s₃.database ≡ s.database =
        same ∙ connect-kept (database_url db_path) s₁ ∙ (directory-kept (h.parent db_path) s).0 in
      (
        still ∙ opened ∙ connect-open (database_url db_path) s₁ s₂ p₂,
        wal ∙ ahead,
        subst (λ d. Upgraded d s'.database) kept
            (apply_pending-Upgraded s'.database (subst Known (sym kept) k)
              (applies migrations s₃.database s'.database ran)),
      )

  abbrev because : String → Fault → Option Failure
  because context none = none
  because context (some e) = some (failed context e)

  abbrev directory_failure : Option String → Option Failure
  directory_failure none = none
  directory_failure (some parent) =
      because "failed to create database directory" (h.mkdir_fault parent)

  abbrev later_failure : String → Option Failure
  later_failure db_path =
      or_else
        (because "failed to connect to SQLite database" (h.connect_fault (database_url db_path)))
        (because "failed to set WAL journal mode" h.journal_fault)

  -- The first fault before the migrations, in the order in which the pool is made.
  abbrev pub first_failure : String → Option Failure
  first_failure db_path = or_else (directory_failure (h.parent db_path)) (later_failure db_path)

  -- The result of a creation, and the database after it, by the first failure and the migrator.
  abbrev pub Created :
      Option Failure
      → Result (Unit {0}) String × Database
      → Database
      → Result (Unit {0}) Failure × Storage
      → Type 0
  Created (some e) ran db (r, s') = (r ≡ err e) × (s'.database ≡ db)
  Created none ran db (r, s') =
      (r ≡ map_err (failed "failed to run migrations") ran.0) × (s'.database ≡ ran.1)

  -- The part of the creation that follows the directory.
  connected :
      (db_path : String) (s : Storage)
      → Created (later_failure db_path) (h.migrator migrations s.database) s.database (
          continue
            (connect h (database_url db_path) s)
            (λ _. set_journal_mode h >>= λ _. run_migrations h))
  unfolding connect set_journal_mode run_migrations
  connected db_path s = elim (Option-cases (h.connect_fault (database_url db_path))) [
    | inl n ↦ elim (Option-cases h.journal_fault) [
      | inl m ↦ rw (n, m, connect, set_journal_mode) (refl, refl)
      | inr (e, m) ↦ rw (n, m, connect, set_journal_mode) (refl, refl)
    ]
    | inr (e, n) ↦ rw (n, connect) (refl, refl)
  ]

  -- The creation of a pool answers the first failure of the directory, the connection, the journal and
  -- the migrations, in this order, with its context; before the migrations no failure changes the
  -- database, and a creation without one of the first three ends as the migrations do.
  pub create_pool_cases :
      (db_path : String) (s : Storage)
      → Created
          (first_failure db_path)
          (h.migrator migrations s.database)
          s.database
          (create_pool h db_path s)
  unfolding create_pool create_directory connect set_journal_mode run_migrations
  create_pool_cases db_path s = elim (Option-cases (h.parent db_path)) [
    | inl n ↦ rw (n, create_pool) (connected db_path s)
    | inr (parent, n) ↦ elim (Option-cases (h.mkdir_fault parent)) [
      | inl m ↦
          rw (n, m, create_pool, create_directory)
            (connected db_path (record s { directories = parent ∷ s.directories }))
      | inr (e, m) ↦ rw (n, m, create_pool, create_directory) (refl, refl)
    ]
  ]

-- The end of a pool loses no row and refuses every later statement. The file without its log holds
-- the whole database where the checkpoint had no fault and no other connection kept it from running,
-- and what it held before where it had a fault or was kept, which is no error.
pub checkpoint_and_close_cases :
    (busy : Bool) (f : Fault) (s : Storage)
    → ((checkpoint_and_close busy f s).database ≡ s.database)
      × (check_connection (checkpoint_and_close busy f s) none
          ≡ err "attempted to acquire a connection on a closed pool")
      × (((busy ≡ false) × (f ≡ none) × ((checkpoint_and_close busy f s).main_file ≡ s.database))
          ⊎ (((busy ≡ true) ⊎ (f ≢ none))
              × ((checkpoint_and_close busy f s).main_file ≡ s.main_file)))
unfolding checkpoint_and_close checkpoint check_connection fault_on
checkpoint_and_close_cases busy (some e) s = (refl, refl, inr (inr (λ q. cc), refl))
checkpoint_and_close_cases true none s = (refl, refl, inr (inl refl, refl))
checkpoint_and_close_cases false none s = (refl, refl, inl (refl, refl, refl))
