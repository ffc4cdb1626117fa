-- ===== src/Services/AuditService.antt =====
-- src/services/audit_service.rs: one attempt goes to the exporter's channel, where there is one, and
-- to the table of the audit. The spawned insertion is taken where it is spawned.
use jwt_exchange.Prelude.{
  ℕ, String, Option, none, some, List, [], ◌∷◌, ◌++◌, length, ltb, if◌then◌else◌,
}
use jwt_exchange.Db.Replay.{Fault}
use jwt_exchange.Db.AuditLog.{AuditRecord, LogRow, insert_audit_log}
use jwt_exchange.Logging.Splunk.{SplunkEvent, from_record}

-- The table `request_log`, and the events that wait in the channel of the exporter.
pub record Sinks : Type 0 where
  pub log : List LogRow
  pub channel : Option (List SplunkEvent)

-- `mpsc::channel::<SplunkEvent>(1000)` of src/app.rs
abbrev channel_capacity : ℕ
channel_capacity = 1000

-- `tx.try_send(event)`: a full channel drops the event. The exporter holds the channel open.
unfoldable pub try_send : SplunkEvent → List SplunkEvent → List SplunkEvent
try_send e queue = if ltb (length queue) channel_capacity then queue ++ (e ∷ []) else queue

-- `log_exchange_attempt`; `none` is a panic, which comes before the insertion. `at` is the time that
-- the database gives the row, `now` that of the event.
unfoldable pub log_exchange_attempt : Fault → (at now : String) → AuditRecord → Sinks → Option Sinks
unfolding insert_audit_log from_record try_send
log_exchange_attempt fault at now r s = elim s.channel [
  | none ↦ some (record s { log = insert_audit_log fault at r s.log })
  | some queue ↦ elim (from_record now r) [
    | none ↦ none
    | some e ↦
        some (record { log = insert_audit_log fault at r s.log; channel = some (try_send e queue) })
  ]
]
