-- ===== src/Db/AuditLog.antt =====
-- The table `request_log` of src/db/audit.rs and migrations/, as a list of its rows, the oldest
-- first: the insertion of a record, and the purge by age with its daily task.
pub mod Retention
pub mod Tests
use Prim.Native.String.{◌++◌ as concat}
use jwt_exchange.Prelude.{
  ℕ, String, Bool, not, Option, none, some, List, [], ◌∷◌, ◌++◌, keep, length,
}
use jwt_exchange.Prelude.Int.{ℤ}
use jwt_exchange.Result.{Result, ok, err}
use jwt_exchange.Db.Replay.{Fault}

pub record AuditRecord : Type 0 where
  pub source_ip : String
  pub inbound_sub : Option String
  pub inbound_iss : Option String
  pub inbound_aud : Option String
  pub validation : String
  pub error_detail : Option String
  pub outbound_sub : Option String
  pub token_jti : Option String
  pub response_code : ℤ
  pub elapsed_ms : ℤ

-- A row: the columns that an insertion gives, and `timestamp`, which has the default
-- `datetime('now')`. The number of the row and `exported_to_splunk` are read by no statement.
pub record LogRow : Type 0 where
  pub timestamp : String
  pub entry : AuditRecord

-- What the program's statements take from SQLite: the text of an integer under `||`, the function
-- `datetime` at a second of the clock with a modifier, where none is NULL, and `<` on two texts.
pub record Sqlite : Type 0 where
  pub int_text : ℤ → String
  pub datetime : ℤ → Option String → Option String
  pub less : String → String → Bool

-- `insert_audit_log`: a fault of the database is logged, and the record is lost. `at` is what
-- `datetime('now')` gives.
unfoldable pub insert_audit_log : Fault → String → AuditRecord → List LogRow → List LogRow
insert_audit_log (some e) at r log = log
insert_audit_log none at r log = log ++ (record { timestamp = at; entry = r } ∷ [])

module _ (S : Sqlite) where
  open S use {int_text, datetime, less}

  -- `'-' || ?1 || ' days'`
  unfoldable pub modifier : ℤ → String
  modifier retention_days = concat "-" (concat (int_text retention_days) " days")

  -- `DELETE ... WHERE timestamp < cutoff`: a comparison with NULL selects no row.
  unfoldable pub delete_older : Option String → List LogRow → Result ℕ String × List LogRow
  delete_older none log = (ok 0, log)
  delete_older (some cutoff) log = (
    ok (length (keep (λ r. less r.timestamp cutoff) log)),
    keep (λ r. not (less r.timestamp cutoff)) log,
  )

  -- `purge_old_logs`, at a second of the clock.
  unfoldable pub purge_old_logs : Fault → ℤ → ℤ → List LogRow → Result ℕ String × List LogRow
  unfolding modifier delete_older
  purge_old_logs (some e) now retention_days log = (err e, log)
  purge_old_logs none now retention_days log =
      delete_older (datetime now (some (modifier retention_days))) log

  -- What happens to the table while the service runs: a record is inserted at a second of the clock,
  -- or the daily task ticks. A failed purge is logged, and the task goes on with the next tick.
  pub data LogEvent : Type 0 where
    inserted : Fault → String → AuditRecord → LogEvent
    tick : Fault → ℤ → LogEvent

  -- `start_purge_task`, among the insertions.
  unfoldable pub run_purge_task : ℤ → List LogEvent → List LogRow → List LogRow
  unfolding insert_audit_log purge_old_logs
  run_purge_task retention_days [] log = log
  run_purge_task retention_days (inserted f at r ∷ rest) log =
      run_purge_task retention_days rest (insert_audit_log f at r log)
  run_purge_task retention_days (tick f now ∷ rest) log =
      run_purge_task retention_days rest (purge_old_logs f now retention_days log).1
