-- ===== src/Handlers/Exchange/Tests.antt =====
-- A request at inputs, and the theorems at it.
use jwt_exchange.Prelude.{
  ◌<◌, String, len, ◌≡◌, ◌≢◌, ◌↔◌, ◌⊎◌, refl, false, none, some, [], ◌∷◌, ◌++◌, str_eq,
  if◌then◌else◌, is_char_boundary,
}
use jwt_exchange.Prelude.Int.{pos}
use jwt_exchange.Result.{Result, ok, err}
use mathlib.Core.Option.{bind}
use jwt_exchange.Str.{split, prepend, trim, trim_start, trim_end, is_whitespace, strip_prefix}
use jwt_exchange.Logging.Splunk.{from_record, hint_of}
use jwt_exchange.Middleware.{from_request}
use jwt_exchange.Db.AuditLog.{insert_audit_log}
use jwt_exchange.Http.{header}
use jwt_exchange.Error.{ServiceError, missing_token, to_envelope}
use jwt_exchange.Models.{HttpResponse, failure}
use jwt_exchange.Middleware.{call}
use jwt_exchange.Db.AuditLog.{AuditRecord}
use jwt_exchange.Services.AuditService.{Sinks, log_exchange_attempt}
use jwt_exchange.Crates.Sample.{sample}
use jwt_exchange.Services.Exchange.Tests.{config, moment, fresh, after, token, result_at, minted}
use jwt_exchange.Handlers.Exchange.{
  HttpRequest, first_filled, RequestMoment, World, token_of, body_token, extract_source_ip,
  record_of, response_of, conclude, exchange,
}
use jwt_exchange.Handlers.Exchange.Audit.{log_exchange_attempt_panics_iff, exchange_audited}
use jwt_exchange.Handlers.Exchange.Requests.{
  Bearer, Names, token_of-eq-some_iff, exchange_request_id,
}

abbrev pub request : HttpRequest
request = record {
  header = λ name.
      if str_eq name "authorization"
      then some (some "Bearer aGVsbG8.e30.c2ln")
      else if str_eq name "x-forwarded-for"
      then some (some " , 10.0.0.1,10.0.0.2")
      else none;
  peer_ip = some "172.17.0.2";
  extension = some "id-1";
}

abbrev pub request_moment : RequestMoment
request_moment = record {
  now = "now";
  elapsed_ms = pos 7;
  fresh_id = "id-2";
  audit_fault = none;
  logged_at = "at";
}

abbrev pub world : World String
world = record { shared = fresh; sinks = record { log = []; channel = none } }

abbrev attempt : AuditRecord
attempt = record_of "10.0.0.1" (pos 7) (ok (result_at (pos 3000)))

abbrev answer : HttpResponse
answer = response_of "now" "id-1" (ok (result_at (pos 3000)))

abbrev world_after : World String
world_after = record {
  shared = after;
  sinks = record { log = record { timestamp = "at"; entry = attempt } ∷ []; channel = none };
}

found : token_of request none ≡ some token
unfolding token_of strip_prefix bind
found = refl

source : extract_source_ip request ≡ "10.0.0.1"
unfolding extract_source_ip bind split prepend trim trim_start trim_end is_whitespace first_filled
source = refl

answered :
    exchange sample config moment "key" request_moment request none world
    ≡ some (ok answer, world_after)
unfolding exchange conclude log_exchange_attempt insert_audit_log from_request
answered = rw (found, exchange, minted, source) refl

exchange_audited_example :
    ((token_of request none ≡ none)
      × (◌≡◌ {A = Result HttpResponse ServiceError} (ok answer) (err missing_token))
      × (world_after ≡ world))
    ⊎ ((response : HttpResponse) × (attempt : AuditRecord) × (token_of request none ≢ none)
        × (◌≡◌ {A = Result HttpResponse ServiceError} (ok answer) (ok response))
        × (world_after.sinks.log ≡ [] ++ (record { timestamp = "at"; entry = attempt } ∷ []))
        × (attempt.response_code ≡ pos response.status)
        × (attempt.source_ip ≡ extract_source_ip request)
        × (attempt.elapsed_ms ≡ pos 7))
exchange_audited_example =
    exchange_audited sample config moment "key" request_moment request none world world_after
      (ok answer) refl answered

token_of-eq-some_iff_example : (token_of request none ≡ some token) ↔ (
    Bearer request token ⊎ (((u : String) → ¬ (Bearer request u)) × (body_token none ≡ some token)))
token_of-eq-some_iff_example = token_of-eq-some_iff request none token

exchange_request_id_example :
    (header (call "now" "id-1" (λ _. ok answer)).headers "x-request-id" ≡ some "id-1")
    × (((token_of request none ≡ none)
          × ((call "now" "id-1" (λ _. ok answer)).body
              ≡ failure (to_envelope "now" missing_token "-")))
        ⊎ ((token_of request none ≢ none) × Names "id-1" (call "now" "id-1" (λ _. ok answer)).body))
exchange_request_id_example =
    exchange_request_id sample config moment "key" request_moment request none world world_after
      (ok answer) "id-1" "now" refl answered

-- An identifier with a character of two bytes across its eighth byte.
abbrev cut : AuditRecord
cut = record {
  source_ip = "10.0.0.1";
  inbound_sub = some "alice";
  inbound_iss = none;
  inbound_aud = none;
  validation = "success";
  error_detail = none;
  outbound_sub = some "alice";
  token_jti = some "0123456é9";
  response_code = pos 200;
  elapsed_ms = pos 7;
}

abbrev exporting : Sinks
exporting = record { log = []; channel = some [] }

panicked : log_exchange_attempt none "at" "now" cut exporting ≡ none
unfolding log_exchange_attempt from_record hint_of
panicked = refl

log_exchange_attempt_panics_iff_example :
    (log_exchange_attempt none "at" "now" cut exporting ≡ none) ↔ (
      (exporting.channel ≢ none)
      × ((jti : String) × (cut.token_jti ≡ some jti)
          × (8 < len jti)
          × (is_char_boundary jti 8 ≡ false)))
log_exchange_attempt_panics_iff_example =
    log_exchange_attempt_panics_iff none "at" "now" cut exporting
