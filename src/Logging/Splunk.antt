-- ===== src/Logging/Splunk.antt =====
-- src/logging/splunk.rs: the event of an audit record, the exporter that collects events in batches,
-- and the attempts to send a batch.
pub mod Hint
pub mod Batches
pub mod Attempts
pub mod Tests
use jwt_exchange.Prelude.{
  ℕ, zero, suc, ◌+◌, ◌-◌, ◌*◌, String, len, Bool, true, false, not, Option, none, some, List, [],
  ◌∷◌, ◌++◌, is_empty, length, ltb, leb, get?, if◌then◌else◌,
}
use jwt_exchange.Prelude.Int.{ℤ}
use jwt_exchange.Result.{Result, ok, err}
use jwt_exchange.Http.{is_success}
use jwt_exchange.Db.AuditLog.{AuditRecord}

pub record SplunkEvent : Type 0 where
  pub time : String
  pub source_ip : String
  pub inbound_sub : Option String
  pub validation : String
  pub error_detail : Option String
  pub outbound_sub : Option String
  pub token_jti_hint : Option String
  pub response_code : ℤ
  pub elapsed_ms : ℤ

-- `if jti.len() > 8 { jti[..8].to_string() } else { jti.clone() }`; `none` is a panic.
unfoldable pub hint_of : String → Option String
hint_of jti = if ltb 8 (len jti) then get? jti 0 8 else some jti

abbrev event_with : String → AuditRecord → Option String → SplunkEvent
event_with now r hint = record {
  time = now;
  source_ip = r.source_ip;
  inbound_sub = r.inbound_sub;
  validation = r.validation;
  error_detail = r.error_detail;
  outbound_sub = r.outbound_sub;
  token_jti_hint = hint;
  response_code = r.response_code;
  elapsed_ms = r.elapsed_ms;
}

-- `record.token_jti.as_ref().map(...)`; `none` is a panic.
unfoldable hints : Option String → Option (Option String)
unfolding hint_of
hints none = some none
hints (some jti) = elim (hint_of jti) [ none ↦ none | some hint ↦ some (some hint) ]

-- `SplunkEvent::from_record`; `none` is a panic.
unfoldable pub from_record : String → AuditRecord → Option SplunkEvent
unfolding hints
from_record now r = elim (hints r.token_jti) [
  | none ↦ none
  | some hint ↦ some (event_with now r hint)
]

abbrev pub batch_size : ℕ
batch_size = 50

abbrev max_retries : ℕ
max_retries = 3

abbrev retry_delay : ℕ
retry_delay = 2

-- What the exporter's loop waits for: an event, a tick of its interval, or the end of the channel.
pub data Signal : Type 0 where
  received : SplunkEvent → Signal
  ticked closed : Signal

-- The batch of the exporter, and the batches that it has handed to `flush_batch`, the last first.
pub record Exporter : Type 0 where
  pub batch : List SplunkEvent
  pub flushed : List (List SplunkEvent)
  pub running : Bool

-- `flush_batch` takes the batch.
unfoldable pub flush : Exporter → Exporter
flush x = record x { batch = []; flushed = x.batch ∷ x.flushed }

-- One turn of the loop of `run_exporter`.
unfoldable pub turn : Signal → Exporter → Exporter
unfolding flush
turn (received e) x =
    let y = record x { batch = x.batch ++ (e ∷ []) } in
    if leb batch_size (length y.batch) then flush y else y
turn ticked x = if not (is_empty x.batch) then flush x else x
turn closed x = record (if not (is_empty x.batch) then flush x else x) { running = false }

-- The loop, on the signals that come; it ends with the channel.
unfoldable pub run_exporter : List Signal → Exporter → Exporter
unfolding turn
run_exporter [] x = x
run_exporter (s ∷ signals) x = if x.running then run_exporter signals (turn s x) else x

-- What `flush_batch` does with the answers of the collector: whether it was sent, the number of
-- requests, and the seconds that it slept, the last first. `left` is the number of retries left,
-- `post n` the status of attempt `n`, or an error.
pub record Sent : Type 0 where
  pub sent : Bool
  pub requests : ℕ
  pub slept : List ℕ

abbrev pub accepted : Result ℕ String → Bool
accepted (ok status) = is_success status
accepted (err e) = false

unfoldable pub attempts : ℕ → (ℕ → Result ℕ String) → ℕ → List ℕ → Sent
attempts zero post n slept = record { sent = accepted (post n); requests = n + 1; slept = slept }
attempts (suc left) post n slept =
    let again = attempts left post (n + 1) (retry_delay * (n + 1) ∷ slept) in
    if accepted (post n) then record { sent = true; requests = n + 1; slept = slept } else again

-- `flush_batch`, for a batch that was taken.
unfoldable pub flush_batch : (ℕ → Result ℕ String) → Sent
unfolding attempts
flush_batch post = attempts max_retries post 0 []
