-- ===== src/Services/Exchange.antt =====
-- `exchange_token` of src/services/token_service.rs: the steps of one exchange, in their order, over
-- the cache of keys and the table of used identifiers. Nothing else runs between its awaits here;
-- Services/Exchange/Machine.antt has the same exchange in steps, between which other tasks run.
pub mod Minted
pub mod Lifetime
pub mod Once
pub mod Machine
pub mod Rejections
pub mod Fits
pub mod Failures
pub mod Refused
pub mod Codes
pub mod Tests
use Prim.Native.String.{◌++◌ as concat}
use mathlib.Core.Option.{bind}
use mathlib.Core.List.{head?}
use jwt_exchange.Prelude.{
  ℕ, String, len, Bool, true, false, Option, none, some, List, or_else, ltb, if◌then◌else◌,
}
use jwt_exchange.Prelude.Int.{ℤ}
use jwt_exchange.Result.{Result, ok, err, map_err, ok_or}
use jwt_exchange.Task.{Task, lift, ◌>>=◌}
use jwt_exchange.Error.{ServiceError, malformed_token, unknown_kid, replay_detected, jwks, other}
use jwt_exchange.Maps.{lookup}
use jwt_exchange.Crates.{Crates, InboundClaims}
use jwt_exchange.Config.{AppConfig}
use jwt_exchange.Auth.Jwks.{CachedJwks, force_refresh_jwks}
use jwt_exchange.Db.Replay.{Table, check_and_record_jti}
use jwt_exchange.Services.Kid.{extract_kid}
use jwt_exchange.Services.Mint.{
  Moment, TokenExchangeResult, has_groups, validate, replay_id_of, expiry_of, mint,
}

pub record Shared (Jwk : Type 0) : Type 0 where
  pub cache : CachedJwks Jwk
  pub used : Table

module _ (X : Crates) where
  open X use {Value, as_str, as_array, Jwk, DecodingKey, from_jwk, EncodingKey}

  -- `DecodingKey::from_jwk`, with the error that the exchange gives.
  unfoldable pub key_of : String → Jwk → Result DecodingKey ServiceError
  key_of kid jwk =
      map_err (λ e. jwks (concat "invalid JWK for kid " (concat kid (concat ": " e))))
        (from_jwk jwk)

  abbrev pub key_after_refresh :
      String
      → Result (Unit {0}) ServiceError × CachedJwks Jwk
      → Shared Jwk
      → Result DecodingKey ServiceError × Shared Jwk
  key_after_refresh kid (err e, c) s = (err e, record s { cache = c })
  key_after_refresh kid (ok _, c) s = elim (lookup kid c.keys_by_kid) [
    | none ↦ (err unknown_kid, record s { cache = c })
    | some jwk ↦ (key_of kid jwk, record s { cache = c })
  ]

  -- Steps 2 and 3: the key from the cache, or from the cache after a forced refresh.
  unfoldable pub find_key : Moment → String → Task (Shared Jwk) ServiceError DecodingKey
  find_key m kid s = elim (lookup kid s.cache.keys_by_kid) [
    | some jwk ↦ (key_of kid jwk, s)
    | none ↦
        key_after_refresh kid
          (force_refresh_jwks X m.client m.cooldown_at m.stamped_at s.cache.jwks_uri s.cache) s
  ]

  -- The audience for the audit of a replay: a text, or the first text of an array.
  unfoldable pub audience_text : Option Value → Option String
  audience_text aud = or_else (bind aud as_str) (bind (bind (bind aud as_array) head?) as_str)

  unfoldable pub check_replay :
      AppConfig → Moment → String → ℤ → Bool → Task (Shared Jwk) ServiceError Bool
  check_replay config m replay_id exp groups s =
      let (r, t) = check_and_record_jti m.faults replay_id exp config.allow_replay groups s.used in
      (map_err other r, record s { used = t })

  -- What follows the check: a replay is an error, anything else is minted.
  abbrev pub unless_replayed :
      AppConfig
      → Moment
      → EncodingKey
      → InboundClaims Value
      → String
      → String
      → Option (List String)
      → Bool
      → Result TokenExchangeResult ServiceError
  unless_replayed config m key claims sub replay_id requested true =
      err (replay_detected sub claims.iss (audience_text claims.aud) replay_id)
  unless_replayed config m key claims sub replay_id requested false =
      mint X config m key claims sub replay_id requested

  -- Steps 5 to 7, for a token that is valid.
  unfoldable pub redeem :
      AppConfig
      → Moment
      → EncodingKey
      → String
      → InboundClaims Value
      → Option (List String)
      → Task (Shared Jwk) ServiceError TokenExchangeResult
  redeem config m key raw_token claims requested = do
    sub ← lift (ok_or claims.sub malformed_token)
    used ←
        check_replay config m (replay_id_of X raw_token claims) (expiry_of X claims)
          (has_groups requested)
    lift (unless_replayed config m key claims sub (replay_id_of X raw_token claims) requested used)

  -- Steps 1 to 4, which read the token, and then the rest.
  unfoldable pub exchange_token :
      AppConfig
      → Moment
      → EncodingKey
      → String
      → Option (List String)
      → Task (Shared Jwk) ServiceError TokenExchangeResult
  exchange_token config m key raw_token requested =
      let rest = do
        kid ← lift (extract_kid X raw_token)
        decoding_key ← find_key m kid
        claims ← lift (validate X config m raw_token decoding_key)
        redeem config m key raw_token claims requested
      in if ltb config.max_token_size (len raw_token) then lift (err malformed_token) else rest
