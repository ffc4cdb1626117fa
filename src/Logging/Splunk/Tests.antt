-- ===== src/Logging/Splunk/Tests.antt =====
-- Runs of the exporter, and the theorems at inputs.
use jwt_exchange.Prelude.{ℕ, String, ◌≡◌, refl, true, none, some, List, [], ◌∷◌, ◌++◌, arith}
use jwt_exchange.Prelude.Int.{pos}
use jwt_exchange.Result.{Result, ok}
use jwt_exchange.Db.AuditLog.{AuditRecord}
use jwt_exchange.Logging.Splunk.{
  SplunkEvent, hint_of, hints, from_record, Signal, received, ticked, closed, Exporter,
  run_exporter,
}
use jwt_exchange.Logging.Splunk.Batches.{kept, events_of, IsValid, run_exporter-kept}
use jwt_exchange.Logging.Splunk.Attempts.{SendOutcome, flush_batch_cases}

abbrev attempt : AuditRecord
attempt = record {
  source_ip = "10.0.0.1";
  inbound_sub = some "alice";
  inbound_iss = none;
  inbound_aud = none;
  validation = "success";
  error_detail = none;
  outbound_sub = some "alice";
  token_jti = some "0123456789";
  response_code = pos 200;
  elapsed_ms = pos 7;
}

-- The identifier has a character of two bytes across its eighth byte.
abbrev cut : AuditRecord
cut = record attempt { token_jti = some "0123456é9" }

abbrev event : SplunkEvent
event = record {
  time = "now";
  source_ip = "10.0.0.1";
  inbound_sub = some "alice";
  validation = "success";
  error_detail = none;
  outbound_sub = some "alice";
  token_jti_hint = some "01234567";
  response_code = pos 200;
  elapsed_ms = pos 7;
}

hinted : from_record "now" attempt ≡ some event
unfolding from_record hints hint_of
hinted = refl

panicked : from_record "now" cut ≡ none
unfolding from_record hints hint_of
panicked = refl

abbrev idle : Exporter
idle = record { batch = []; flushed = []; running = true }

abbrev signals : List Signal
signals = received event ∷ ticked ∷ ticked ∷ received event ∷ closed ∷ received event ∷ []

run_exporter-kept_example : kept (run_exporter signals idle) ≡ kept idle ++ events_of signals
run_exporter-kept_example = run_exporter-kept signals idle refl

idle-IsValid : IsValid idle
idle-IsValid = record { below = omega arith; sizes = tt; ended = λ _. refl }

abbrev refusing : ℕ → Result ℕ String
refusing n = ok 503

flush_batch_cases_example : SendOutcome refusing
flush_batch_cases_example = flush_batch_cases refusing
