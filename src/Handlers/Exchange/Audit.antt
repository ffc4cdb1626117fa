-- ===== src/Handlers/Exchange/Audit.antt =====
-- What a request leaves in the audit, and when its handler panics.
use mathlib.Core.Path.{subst}
use jwt_exchange.Prelude.{
  ◌<◌, String, len, ◌≡◌, ◌≢◌, ◌↔◌, refl, sym, ap, ◌∙◌, false, Option, none, some, [], ◌∷◌, ◌++◌,
  arith, is_char_boundary, Option-cases, inl, inr, ◌⊎◌,
}
use jwt_exchange.Prelude.Int.{ℤ, pos}
use jwt_exchange.Result.{Result, ok, err}
use jwt_exchange.Error.{ServiceError, missing_token, replay_detected, status_code}
use jwt_exchange.Models.{ExchangeRequest, HttpResponse}
use jwt_exchange.Middleware.{from_request}
use jwt_exchange.Crates.{Crates}
use jwt_exchange.Config.{AppConfig}
use jwt_exchange.Db.Replay.{Fault}
use jwt_exchange.Db.AuditLog.{AuditRecord, insert_audit_log}
use jwt_exchange.Logging.Splunk.{from_record}
use jwt_exchange.Logging.Splunk.Hint.{from_record_panics_iff}
use jwt_exchange.Services.AuditService.{Sinks, log_exchange_attempt}
use jwt_exchange.Services.Mint.{Moment, TokenExchangeResult}
use jwt_exchange.Services.Exchange.{Shared, exchange_token}
use jwt_exchange.Handlers.Exchange.{
  HttpRequest, RequestMoment, World, token_of, extract_source_ip, record_of, response_of, conclude,
  exchange, settled, body_groups,
}

record_of-response_of :
    (ip now request_id : String) (ms : ℤ) (r : Result TokenExchangeResult ServiceError)
    → (record_of ip ms r).response_code ≡ pos (response_of now request_id r).status
unfolding record_of response_of status_code
record_of-response_of ip now request_id ms (ok r) = refl
record_of-response_of ip now request_id ms (err (replay_detected s i a j)) = refl
record_of-response_of ip now request_id ms (err _) = refl

record_of-source :
    (ip : String) (ms : ℤ) (r : Result TokenExchangeResult ServiceError)
    → ((record_of ip ms r).source_ip ≡ ip) × ((record_of ip ms r).elapsed_ms ≡ ms)
unfolding record_of
record_of-source ip ms (ok r) = (refl, refl)
record_of-source ip ms (err (replay_detected s i a j)) = (refl, refl)
record_of-source ip ms (err _) = (refl, refl)

-- A call of the audit service panics exactly where the exporter is configured and the record has an
-- identifier of more than eight bytes whose ninth byte does not begin a character; then the record
-- is not inserted.
pub log_exchange_attempt_panics_iff :
    (fault : Fault) (at now : String) (r : AuditRecord) (s : Sinks)
    → (log_exchange_attempt fault at now r s ≡ none) ↔ (
        (s.channel ≢ none)
        × ((jti : String) × (r.token_jti ≡ some jti)
            × (8 < len jti)
            × (is_char_boundary jti 8 ≡ false)))
unfolding log_exchange_attempt
log_exchange_attempt_panics_iff fault at now r s = elim (Option-cases s.channel) [
  | inl c ↦ ground arith
  | inr (queue, c) ↦ elim (Option-cases (from_record now r)) [
    | inl p ↦ (λ _. (ground arith, (from_record_panics_iff now r).0 p), λ _. ground arith)
    | inr (e, p) ↦ (
      λ h. absurd (ground arith),
      λ h. absurd (let q = (from_record_panics_iff now r).1 h.1 in ground arith),
    )
  ]
]

log_exchange_attempt-log :
    (at now : String) (r : AuditRecord) (s s' : Sinks)
    → log_exchange_attempt none at now r s ≡ some s'
    → s'.log ≡ s.log ++ (record { timestamp = at; entry = r } ∷ [])
unfolding log_exchange_attempt insert_audit_log
log_exchange_attempt-log at now r s s' h = ground arith

some_pair_inj {ℓ κ} :
    {A : Type ℓ} {B : Type κ} {a c : A} {b d : B}
    → ◌≡◌ {A = Option (A × B)} (some (a, b)) (some (c, d))
    → (c ≡ a) × (d ≡ b)
some_pair_inj h = (cc, cc)

module _ (X : Crates) where
  open X use {Jwk, EncodingKey}

  settled-eq-some :
      (s : Shared Jwk) (o : Option (HttpResponse × Sinks)) (r : Result HttpResponse ServiceError)
      (w' : World Jwk)
      → settled X s o ≡ some (r, w')
      → (response : HttpResponse) × (r ≡ ok response)
        × (w'.shared ≡ s)
        × (o ≡ some (response, w'.sinks))
  settled-eq-some s none r w' h = absurd (ground arith)
  settled-eq-some s (some (response, k)) r w' h =
      let (p, same) = some_pair_inj h in
      (
        response,
        p,
        ap (λ (z : World Jwk). z.shared) same,
        ap (λ (z : World Jwk). some (response, z.sinks)) (sym same),
      )

  pub conclude-eq-some :
      (q : RequestMoment) (req : HttpRequest) (result : Result TokenExchangeResult ServiceError)
      (sinks sinks' : Sinks) (r : HttpResponse)
      → conclude X q req result sinks ≡ some (r, sinks')
      → (log_exchange_attempt q.audit_fault q.logged_at q.now
            (record_of (extract_source_ip req) q.elapsed_ms result)
            sinks
          ≡ some sinks')
        × (r ≡ response_of q.now (from_request req.extension q.fresh_id) result)
  unfolding conclude
  conclude-eq-some q req result sinks sinks' r h =
      after
        (log_exchange_attempt q.audit_fault q.logged_at q.now
          (record_of (extract_source_ip req) q.elapsed_ms result) sinks)
        h
    where
      after :
          (o : Option Sinks)
          → ◌≡◌ {A = Option (HttpResponse × Sinks)}
              (elim o [
                | none ↦ none
                | some logged ↦
                    some (response_of q.now (from_request req.extension q.fresh_id) result, logged)
              ])
              (some (r, sinks'))
          → (o ≡ some sinks')
            × (r ≡ response_of q.now (from_request req.extension q.fresh_id) result)
      after none g = absurd (ground arith)
      after (some x) g = (cc, cc)

  pub exchange-eq-some :
      (config : AppConfig) (m : Moment) (key : EncodingKey) (q : RequestMoment) (req : HttpRequest)
      (body : Option ExchangeRequest) (w w' : World Jwk) (r : Result HttpResponse ServiceError)
      → exchange X config m key q req body w ≡ some (r, w')
      → ((token_of req body ≡ none) × (r ≡ err missing_token) × (w' ≡ w))
        ⊎ ((raw : String) × (response : HttpResponse) × (token_of req body ≡ some raw)
            × (r ≡ ok response)
            × (w'.shared ≡ (exchange_token X config m key raw (body_groups body) w.shared).1)
            × (conclude X q req
                  (exchange_token X config m key raw (body_groups body) w.shared).0
                  w.sinks
                ≡ some (response, w'.sinks)))
  unfolding exchange
  exchange-eq-some config m key q req body w w' r h = elim (Option-cases (token_of req body)) [
    | inl n ↦ let (p, same) = some_pair_inj (rw (n, exchange) at h) in inl (n, p, same)
    | inr (raw, n) ↦
        let (response, p, shared, o) =
          settled-eq-some (exchange_token X config m key raw (body_groups body) w.shared).1
            (conclude X q req (exchange_token X config m key raw (body_groups body) w.shared).0
              w.sinks)
            r w' (rw (n, exchange) at h) in
        inr (raw, response, n, p, shared, o)
  ]

  -- A request with a token that is answered leaves exactly one record more in the audit, after those
  -- that are there, if the database has no fault; its code is the status of the response, its source
  -- and its time are those of the request, and the row has the time of the database. A request without a token leaves the audit, the exporter's
  -- channel, the keys and the used identifiers as they are.
  pub exchange_audited :
      (config : AppConfig) (m : Moment) (key : EncodingKey) (q : RequestMoment) (req : HttpRequest)
      (body : Option ExchangeRequest) (w w' : World Jwk) (r : Result HttpResponse ServiceError)
      → q.audit_fault ≡ none
      → exchange X config m key q req body w ≡ some (r, w')
      → ((token_of req body ≡ none) × (r ≡ err missing_token) × (w' ≡ w))
        ⊎ ((response : HttpResponse) × (attempt : AuditRecord) × (token_of req body ≢ none)
            × (r ≡ ok response)
            × (w'.sinks.log
                ≡ w.sinks.log ++ (record { timestamp = q.logged_at; entry = attempt } ∷ []))
            × (attempt.response_code ≡ pos response.status)
            × (attempt.source_ip ≡ extract_source_ip req)
            × (attempt.elapsed_ms ≡ q.elapsed_ms))
  exchange_audited config m key q req body w w' r sound h =
      elim (exchange-eq-some config m key q req body w w' r h) [
        | inl missing ↦ inl missing
        | inr (raw, response, n, p, _, c) ↦
            let result = (exchange_token X config m key raw (body_groups body) w.shared).0 in
            let ip = extract_source_ip req in
            let attempt = record_of ip q.elapsed_ms result in
            let (logged, answer) = conclude-eq-some q req result w.sinks w'.sinks response c in
            let (source, elapsed) = record_of-source ip q.elapsed_ms result in
            inr (
              response,
              attempt,
              (λ e. cc),
              p,
              log_exchange_attempt-log q.logged_at q.now attempt w.sinks w'.sinks (
                  subst
                    (λ f. log_exchange_attempt f q.logged_at q.now attempt w.sinks ≡ some w'.sinks)
                    sound logged),
              record_of-response_of ip q.now (from_request req.extension q.fresh_id) q.elapsed_ms
                    result
                  ∙ ap (λ (z : HttpResponse). pos z.status) (sym answer),
              source,
              elapsed,
            )
      ]
