-- ===== src/Services/Exchange/Machine/Redeemed.antt =====
-- The steps of a task of Services.Exchange.Machine from the validation of its token on are those of
-- `exchange_token` of src/services/token_service.rs, where no other task interrupts.
use jwt_exchange.Prelude.{
  ℕ, zero, suc, String, ◌≡◌, refl, sym, ◌∙◌, Bool, true, false, Option, none, some, List,
}
use jwt_exchange.Result.{Result, ok, err, map_err, ok_or}
use jwt_exchange.Task.{Task, lift, continue}
use jwt_exchange.Error.{ServiceError, malformed_token, other}
use jwt_exchange.Crates.{Crates, InboundClaims}
use jwt_exchange.Config.{AppConfig}
use jwt_exchange.Db.Replay.{Table, select_jti, replay_write, strict_write, check_and_record_jti}
use jwt_exchange.Db.Replay as Db
use jwt_exchange.Services.Mint.{
  Moment, TokenExchangeResult, has_groups, validate, replay_id_of, expiry_of,
}
use jwt_exchange.Services.Exchange.{Shared, check_replay, unless_replayed, redeem}
use jwt_exchange.Services.Exchange.Machine.{
  Phase, keyed, valid, done, after_subject, after_validation, conclude, after_read, at_table,
  advance, drive,
}

module _ (X : Crates) (config : AppConfig) (key : X.EncodingKey) (raw_token : String)
    (requested : Option (List String)) (m : Moment) where
  open X use {Value, Jwk, DecodingKey, EncodingKey}

  -- The steps of a task, for this section's exchange.
  abbrev pub run : ℕ → Phase X → Shared Jwk → Phase X × Shared Jwk
  run n p s = drive X config key raw_token requested m n p s

  abbrev pub ended : Result TokenExchangeResult ServiceError × Shared Jwk → Phase X × Shared Jwk
  ended (r, s) = (done r, s)

  abbrev call : InboundClaims Value → Bool → Table → Result Bool String × Table
  call claims allow t =
      check_and_record_jti m.faults (replay_id_of X raw_token claims) (expiry_of X claims) allow
        (has_groups requested) t

  abbrev concluded :
      InboundClaims Value → String → Shared Jwk → Result Bool String × Table → Phase X × Shared Jwk
  concluded claims sub s (r, t) =
      (done (conclude X config key raw_token requested m claims sub r), record s { used = t })

  pub run-done :
      (n : ℕ) (r : Result TokenExchangeResult ServiceError) (s : Shared Jwk)
      → run n (done r) s ≡ (done r, s)
  unfolding drive
  run-done zero r s = refl
  run-done (suc n) r s = run-done n r s

  run-read :
      (n : ℕ) (claims : InboundClaims Value) (sub : String) (s : Shared Jwk)
      (r : Result Bool String)
      → run (suc n) (after_read X config key raw_token requested m claims sub r) s
        ≡ concluded claims sub s (
            Db.after_read r m.faults.write
              (replay_id_of X raw_token claims)
              (expiry_of X claims)
              s.used)
  unfolding drive advance
  run-read n claims sub s (ok true) = run-done n _ s
  run-read n claims sub s (ok false) = run-done n _ _
  run-read n claims sub s (err e) = run-done n _ s

  run-valid :
      (n : ℕ) (claims : InboundClaims Value) (sub : String) (s : Shared Jwk)
      → run (suc (suc n)) (valid claims sub) s
        ≡ concluded claims sub s (call claims config.allow_replay s.used)
  unfolding drive advance check_and_record_jti
  run-valid n claims sub s = branch config.allow_replay
    where
      branch :
          (allow : Bool)
          → run
              (suc n)
              (at_table X config key raw_token requested allow m claims sub s).0
              (at_table X config key raw_token requested allow m claims sub s).1
            ≡ concluded claims sub s (call claims allow s.used)
      branch true = run-done n _ _
      branch false =
          run-read n claims sub s
            (select_jti m.faults.read (replay_id_of X raw_token claims) s.used)

  -- What follows the check of the table, as the function writes it.
  table_part :
      (claims : InboundClaims Value) (sub : String) (s : Shared Jwk)
      → ended (
          continue
            (check_replay X config m
              (replay_id_of X raw_token claims)
              (expiry_of X claims)
              (has_groups requested)
              s)
            (λ used. lift (
              unless_replayed X config m key claims sub
                (replay_id_of X raw_token claims)
                requested
                used)))
        ≡ concluded claims sub s (call claims config.allow_replay s.used)
  unfolding check_replay conclude
  table_part claims sub s = after (call claims config.allow_replay s.used)
    where
      after :
          (p : Result Bool String × Table)
          → ended (
              continue
                (map_err other p.0, record s { used = p.1 })
                (λ used. lift (
                  unless_replayed X config m key claims sub
                    (replay_id_of X raw_token claims)
                    requested
                    used)))
            ≡ concluded claims sub s p
      after (ok used, t) = refl
      after (err e, t) = refl

  run-subject :
      (n : ℕ) (claims : InboundClaims Value) (s : Shared Jwk)
      → run (suc (suc n)) (after_subject X claims claims.sub) s
        ≡ ended (redeem X config m key raw_token claims requested s)
  unfolding redeem
  run-subject n claims s = after claims.sub
    where
      after :
          (o : Option String)
          → run (suc (suc n)) (after_subject X claims o) s
            ≡ ended (
                continue
                  (ok_or o malformed_token, s)
                  (λ sub t.
                    continue
                      (check_replay X config m
                        (replay_id_of X raw_token claims)
                        (expiry_of X claims)
                        (has_groups requested)
                        t)
                      (λ used. lift (
                        unless_replayed X config m key claims sub
                          (replay_id_of X raw_token claims)
                          requested
                          used))))
      after none = run-done (suc (suc n)) _ s
      after (some sub) = run-valid n claims sub s ∙ sym (table_part claims sub s)

  -- What follows the key.
  abbrev pub rest : DecodingKey → Task (Shared Jwk) ServiceError TokenExchangeResult
  rest dk s =
      continue (validate X config m raw_token dk, s)
        (λ claims. redeem X config m key raw_token claims requested)

  pub run-keyed :
      (n : ℕ) (dk : DecodingKey) (s : Shared Jwk)
      → run (suc (suc (suc n))) (keyed dk) s ≡ ended (rest dk s)
  unfolding drive advance
  run-keyed n dk s = after (validate X config m raw_token dk)
    where
      after :
          (v : Result (InboundClaims Value) ServiceError)
          → run (suc (suc n)) (after_validation X v) s
            ≡ ended (continue (v, s) (λ claims. redeem X config m key raw_token claims requested))
      after (ok claims) = run-subject n claims s
      after (err e) = run-done (suc (suc n)) _ s
