-- ===== src/Db/Replay.antt =====
-- The table `used_jti` of src/db/audit.rs and migrations/, with the statements that the code runs on
-- it. The primary key is (jti, has_groups). A statement is atomic; a fault, the text of an
-- `sqlx::Error`, stops it before it changes the table.
pub mod Table
pub mod Spec
pub mod History
pub mod Growth
pub mod Interleaved
pub mod Tests
use jwt_exchange.Prelude.{
  ℕ, ◌+◌, String, Bool, true, false, not, ◌&&◌, Option, none, some, List, [], ◌∷◌, any, keep,
  length, str_eq, ◌==◌, if◌then◌else◌,
}
use jwt_exchange.Prelude.Int.{ℤ, ltb_ℤ}
use jwt_exchange.Result.{Result, ok, err}

pub record Row : Type 0 where
  pub jti : String
  pub has_groups : ℕ
  pub exp : ℤ

abbrev pub Table : Type 0
Table = List Row

-- `WHERE jti = ?1`
abbrev pub has_jti : String → Row → Bool
has_jti jti r = str_eq r.jti jti

-- The row holds a primary key.
abbrev pub has_key : String → ℕ → Row → Bool
has_key jti g r = str_eq r.jti jti && r.has_groups == g

-- A fault of the database before a statement runs, or none.
abbrev pub Fault : Type 0
Fault = Option String

-- SELECT 1 AS one FROM used_jti WHERE jti = ?1
unfoldable pub select_jti : Fault → String → Table → Result Bool String
select_jti (some e) jti t = err e
select_jti none jti t = ok (any (has_jti jti) t)

-- INSERT OR IGNORE INTO used_jti ...: the number of rows affected, and the table.
unfoldable pub insert_or_ignore : Fault → Row → Table → Result ℕ String × Table
insert_or_ignore (some e) r t = (err e, t)
insert_or_ignore none r t = if any (has_key r.jti r.has_groups) t then (ok 0, t) else (ok 1, r ∷ t)

-- INSERT INTO used_jti ...: a second row under one key violates the constraint.
unfoldable pub insert : Fault → Row → Table → Result ℕ String × Table
insert (some e) r t = (err e, t)
insert none r t =
    if any (has_key r.jti r.has_groups) t
    then (err "UNIQUE constraint failed: used_jti.jti, used_jti.has_groups", t)
    else (ok 1, r ∷ t)

-- DELETE FROM used_jti WHERE exp < ?1
unfoldable pub delete_expired : Fault → ℤ → Table → Result ℕ String × Table
delete_expired (some e) now t = (err e, t)
delete_expired none now t =
    (ok (length (keep (λ r. ltb_ℤ r.exp now) t)), keep (λ r. not (ltb_ℤ r.exp now)) t)

abbrev pub groups_int : Bool → ℕ
groups_int has_groups = if has_groups then 1 else 0

-- What the rows affected say: `result.rows_affected() == 0`.
abbrev replayed : Result ℕ String × Table → Result Bool String × Table
replayed (ok n, t) = (ok (n == 0), t)
replayed (err e, t) = (err e, t)

-- The branch with `allow_replay`: one statement.
unfoldable pub replay_write : Fault → String → ℤ → Bool → Table → Result Bool String × Table
unfolding insert_or_ignore
replay_write fault jti exp has_groups t =
    replayed (
      insert_or_ignore fault (record { jti = jti; has_groups = groups_int has_groups; exp = exp })
        t)

abbrev recorded : Result ℕ String × Table → Result Bool String × Table
recorded (ok n, t) = (ok false, t)
recorded (err e, t) = (err e, t)

-- The second statement of the strict branch.
unfoldable pub strict_write : Fault → String → ℤ → Table → Result Bool String × Table
unfolding insert
strict_write fault jti exp t =
    recorded (insert fault (record { jti = jti; has_groups = 0; exp = exp }) t)

abbrev pub after_read : Result Bool String → Fault → String → ℤ → Table → Result Bool String × Table
after_read (err e) fault jti exp t = (err e, t)
after_read (ok true) fault jti exp t = (ok true, t)
after_read (ok false) fault jti exp t = strict_write fault jti exp t

-- The faults of the two statements of one call.
pub record Faults : Type 0 where
  pub read : Fault
  pub write : Fault

abbrev pub no_faults : Faults
no_faults = record { read = none; write = none }

-- `check_and_record_jti`, where nothing else runs between its statements.
unfoldable pub check_and_record_jti :
    Faults → String → ℤ → Bool → Bool → Table → Result Bool String × Table
unfolding replay_write strict_write select_jti
check_and_record_jti f jti exp true has_groups t = replay_write f.write jti exp has_groups t
check_and_record_jti f jti exp false has_groups t =
    after_read (select_jti f.read jti t) f.write jti exp t

-- `purge_expired_jtis`
unfoldable pub purge_expired_jtis : Fault → ℤ → Table → Result ℕ String × Table
unfolding delete_expired
purge_expired_jtis fault now t = delete_expired fault now t
