-- ===== src/Services/Exchange/Machine/Whole.antt =====
-- A task of Services.Exchange.Machine that no other interrupts is `exchange_token` of
-- src/services/token_service.rs.
use jwt_exchange.Prelude.{
  ℕ, suc, String, len, ◌≡◌, Bool, true, false, Option, none, some, List, ltb, if◌then◌else◌,
}
use jwt_exchange.Result.{Result, ok, err}
use jwt_exchange.Task.{Task, lift, continue}
use jwt_exchange.Error.{ServiceError, malformed_token, unknown_kid}
use jwt_exchange.Maps.{lookup}
use jwt_exchange.Crates.{Crates}
use jwt_exchange.Config.{AppConfig}
use jwt_exchange.Auth.Jwks.{
  CachedJwks, fetch_jwks_with_etag, gate, stamp, settle, after_gate, force_refresh_jwks,
}
use jwt_exchange.Services.Kid.{extract_kid}
use jwt_exchange.Services.Mint.{Moment, TokenExchangeResult}
use jwt_exchange.Services.Exchange.{Shared, key_of, key_after_refresh, find_key, exchange_token}
use jwt_exchange.Services.Exchange.Machine.{
  Phase, arrived, looking, checking, done, with_key, looked_up, first_lookup, after_kid,
  after_checks, after_fetch, advance, drive,
}
use jwt_exchange.Services.Exchange.Machine.Redeemed as Redeemed
use jwt_exchange.Services.Exchange.Machine.Redeemed.{run-done, run-keyed}

module _ (X : Crates) (config : AppConfig) (key : X.EncodingKey) (raw_token : String)
    (requested : Option (List String)) (m : Moment) where
  open X use {Value, Jwk, DecodingKey, EncodingKey}

  abbrev run : ℕ → Phase X → Shared Jwk → Phase X × Shared Jwk
  run n p s = drive X config key raw_token requested m n p s

  abbrev ended : Result TokenExchangeResult ServiceError × Shared Jwk → Phase X × Shared Jwk
  ended = Redeemed.ended X config key raw_token requested m

  abbrev rest : DecodingKey → Task (Shared Jwk) ServiceError TokenExchangeResult
  rest = Redeemed.rest X config key raw_token requested m

  run-with_key :
      (n : ℕ) (r : Result DecodingKey ServiceError) (s : Shared Jwk)
      → run (suc (suc (suc n))) (with_key X r) s ≡ ended (continue (r, s) rest)
  run-with_key n (ok dk) s = run-keyed X config key raw_token requested m n dk s
  run-with_key n (err e) s = run-done X config key raw_token requested m (suc (suc (suc n))) _ s

  run-looked_up :
      (n : ℕ) (kid : String) (o : Option Jwk) (s : Shared Jwk)
      → run (suc (suc (suc n))) (looked_up X unknown_kid kid o) s
        ≡ ended (
            continue
              (elim o [ none ↦ (err unknown_kid, s) | some jwk ↦ (key_of X kid jwk, s) ])
              rest)
  run-looked_up n kid none s = run-done X config key raw_token requested m (suc (suc (suc n))) _ s
  run-looked_up n kid (some jwk) s = run-with_key n (key_of X kid jwk) s

  -- The forced refresh, from its checks on.
  run-checked :
      (n : ℕ) (kid : String) (s : Shared Jwk)
      → run (suc (suc (suc (suc (suc (suc (suc n))))))) (checking kid s.cache.jwks_uri) s
        ≡ ended (
            continue
              (key_after_refresh X kid
                (force_refresh_jwks X m.client m.cooldown_at m.stamped_at s.cache.jwks_uri s.cache)
                s)
              rest)
  unfolding drive advance force_refresh_jwks
  run-checked n kid s = after (gate m.cooldown_at s.cache)
    where
      fetched :
          (p : Result (Unit {0}) ServiceError × CachedJwks Jwk)
          → run (suc (suc (suc (suc n)))) (after_fetch X kid p.0) (record s { cache = p.1 })
            ≡ ended (continue (key_after_refresh X kid p s) rest)
      fetched (err e, c) = run-done X config key raw_token requested m (suc (suc (suc (suc n)))) _ _
      fetched (ok _, c) = run-looked_up n kid (lookup kid c.keys_by_kid) (record s { cache = c })

      after :
          (g : Result (Unit {0}) ServiceError)
          → run (suc (suc (suc (suc (suc (suc n)))))) (after_checks X kid s.cache.jwks_uri g) s
            ≡ ended (
                continue
                  (key_after_refresh X kid
                    (after_gate X g m.client m.stamped_at s.cache.jwks_uri s.cache)
                    s)
                  rest)
      after (err e) =
          run-done X config key raw_token requested m (suc (suc (suc (suc (suc (suc n)))))) _ s
      after (ok _) = fetched (
          settle X (fetch_jwks_with_etag X m.client s.cache.jwks_uri none)
            (stamp m.stamped_at s.cache))

  run-looking :
      (n : ℕ) (kid : String) (s : Shared Jwk)
      → run (suc (suc (suc (suc (suc (suc (suc (suc (suc n))))))))) (looking kid) s
        ≡ ended (continue (find_key X m kid s) rest)
  unfolding drive advance find_key
  run-looking n kid s = after (lookup kid s.cache.keys_by_kid)
    where
      after :
          (o : Option Jwk)
          → run (suc (suc (suc (suc (suc (suc (suc (suc n)))))))) (first_lookup X kid o) s
            ≡ ended (
                continue
                  (elim o [
                    | some jwk ↦ (key_of X kid jwk, s)
                    | none ↦
                        key_after_refresh X kid
                          (force_refresh_jwks X m.client m.cooldown_at m.stamped_at s.cache.jwks_uri
                            s.cache)
                          s
                  ])
                  rest)
      after (some jwk) = run-with_key (suc (suc (suc (suc (suc n))))) (key_of X kid jwk) s
      after none = run-checked n kid s

  -- Ten steps of a task that no other interrupts end it, with the result and the state of
  -- `exchange_token`, whatever the token, the network, the clock and the database answer.
  pub drive-exchange_token :
      (s : Shared Jwk)
      → drive X config key raw_token requested m 10 arrived s ≡ (
        done (exchange_token X config m key raw_token requested s).0,
        (exchange_token X config m key raw_token requested s).1,
      )
  unfolding drive advance exchange_token
  drive-exchange_token s = size (ltb config.max_token_size (len raw_token))
    where
      named :
          (k : Result String ServiceError)
          → run 9 (after_kid X k) s
            ≡ ended (continue (k, s) (λ kid t. continue (find_key X m kid t) rest))
      named (ok kid) = run-looking 0 kid s
      named (err e) = run-done X config key raw_token requested m 9 _ s

      size :
          (large : Bool)
          → run 9
              (if large then done (err malformed_token) else after_kid X (extract_kid X raw_token))
              s
            ≡ ended (
                (if large then lift (err malformed_token) else λ t.
                continue (extract_kid X raw_token, t) (λ kid u. continue (find_key X m kid u) rest))
                  s)
      size true = run-done X config key raw_token requested m 9 _ s
      size false = named (extract_kid X raw_token)
