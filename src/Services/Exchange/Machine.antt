-- ===== src/Services/Exchange/Machine.antt =====
-- `exchange_token` of src/services/token_service.rs as the steps of a task: one step for each lock of
-- the cache (src/auth/jwks.rs) and each statement on the table (src/db/audit.rs), between which other
-- tasks may run.
pub mod Redeemed
pub mod Whole
pub mod Ends
pub mod Tasks
pub mod AtMostOnce
pub mod Backing
pub mod Held
pub mod Keys
pub mod Weights
pub mod Counted
pub mod Tests
use jwt_exchange.Prelude.{
  ℕ, zero, suc, String, len, Bool, true, false, Option, none, some, List, ltb, if◌then◌else◌,
}
use jwt_exchange.Prelude.Int.{ℤ}
use jwt_exchange.Result.{Result, ok, err, map_err, ok_or, ◌>>=◌}
use jwt_exchange.Error.{ServiceError, malformed_token, unknown_kid, other}
use jwt_exchange.Maps.{lookup}
use jwt_exchange.Crates.{Crates, InboundClaims}
use jwt_exchange.Config.{AppConfig}
use jwt_exchange.Auth.Jwks.{CachedJwks, fetch_jwks_with_etag, gate, stamp, settle}
use jwt_exchange.Db.Replay.{Table, select_jti, replay_write, strict_write}
use jwt_exchange.Services.Kid.{extract_kid}
use jwt_exchange.Services.Mint.{
  Moment, TokenExchangeResult, has_groups, validate, replay_id_of, expiry_of,
}
use jwt_exchange.Services.Exchange.{Shared, key_of, unless_replayed}

module _ (X : Crates) where
  open X use {Value, Jwk, DecodingKey, EncodingKey}

  -- Where an exchange stands: before its first lock; with the key identifier before the lookup, after
  -- a miss, before the checks of the forced refresh, after them, waiting for the network, and before
  -- the second lookup; with its key; with valid claims before the table; after a read that found
  -- nothing; and at its end.
  pub data Phase : Type 0 where
    arrived : Phase
    looking missed retried : (kid : String) → Phase
    checking passed waiting : (kid uri : String) → Phase
    keyed : DecodingKey → Phase
    valid cleared : InboundClaims Value → (sub : String) → Phase
    done : Result TokenExchangeResult ServiceError → Phase

  abbrev pub with_key : Result DecodingKey ServiceError → Phase
  with_key (ok dk) = keyed dk
  with_key (err e) = done (err e)

  abbrev pub looked_up : ServiceError → String → Option Jwk → Phase
  looked_up e kid none = done (err e)
  looked_up e kid (some jwk) = with_key (key_of X kid jwk)

  abbrev pub first_lookup : String → Option Jwk → Phase
  first_lookup kid none = missed kid
  first_lookup kid (some jwk) = with_key (key_of X kid jwk)

  abbrev pub after_kid : Result String ServiceError → Phase
  after_kid (ok kid) = looking kid
  after_kid (err e) = done (err e)

  abbrev pub after_checks : String → String → Result (Unit {0}) ServiceError → Phase
  after_checks kid uri (ok _) = passed kid uri
  after_checks kid uri (err e) = done (err e)

  abbrev pub after_fetch : String → Result (Unit {0}) ServiceError → Phase
  after_fetch kid (ok _) = retried kid
  after_fetch kid (err e) = done (err e)

  abbrev pub after_subject : InboundClaims Value → Option String → Phase
  after_subject claims none = done (err malformed_token)
  after_subject claims (some sub) = valid claims sub

  abbrev pub after_validation : Result (InboundClaims Value) ServiceError → Phase
  after_validation (ok claims) = after_subject claims claims.sub
  after_validation (err e) = done (err e)

  module _ (config : AppConfig) (key : EncodingKey) (raw_token : String)
      (requested : Option (List String)) where
    -- What the answer of the table makes of an exchange.
    unfoldable pub conclude :
        Moment
        → InboundClaims Value
        → String
        → Result Bool String
        → Result TokenExchangeResult ServiceError
    conclude m claims sub answer = do
      used ← map_err other answer
      unless_replayed X config m key claims sub (replay_id_of X raw_token claims) requested used

    abbrev pub after_read : Moment → InboundClaims Value → String → Result Bool String → Phase
    after_read m claims sub (ok false) = cleared claims sub
    after_read m claims sub (ok true) = done (conclude m claims sub (ok true))
    after_read m claims sub (err e) = done (conclude m claims sub (err e))

    -- The first statement on the table: with `allow_replay` it is the only one.
    abbrev pub at_table :
        Bool → Moment → InboundClaims Value → String → Shared Jwk → Phase × Shared Jwk
    at_table true m claims sub s =
        let (r, t) =
          replay_write m.faults.write (replay_id_of X raw_token claims) (expiry_of X claims)
            (has_groups requested) s.used in
        (done (conclude m claims sub r), record s { used = t })
    at_table false m claims sub s = (
      after_read m claims sub (select_jti m.faults.read (replay_id_of X raw_token claims) s.used),
      s,
    )

    -- One step, at a moment of its own.
    unfoldable pub advance : Moment → Phase → Shared Jwk → Phase × Shared Jwk
    unfolding extract_kid validate gate stamp settle select_jti replay_write strict_write
    advance m arrived s = (
      if ltb config.max_token_size (len raw_token)
          then done (err malformed_token)
          else after_kid (extract_kid X raw_token),
      s,
    )
    advance m (looking kid) s = (first_lookup kid (lookup kid s.cache.keys_by_kid), s)
    advance m (missed kid) s = (checking kid s.cache.jwks_uri, s)
    advance m (checking kid uri) s = (after_checks kid uri (gate m.cooldown_at s.cache), s)
    advance m (passed kid uri) s =
        (waiting kid uri, record s { cache = stamp m.stamped_at s.cache })
    advance m (waiting kid uri) s =
        let (r, c) = settle X (fetch_jwks_with_etag X m.client uri none) s.cache in
        (after_fetch kid r, record s { cache = c })
    advance m (retried kid) s = (looked_up unknown_kid kid (lookup kid s.cache.keys_by_kid), s)
    advance m (keyed dk) s = (after_validation (validate X config m raw_token dk), s)
    advance m (valid claims sub) s = at_table config.allow_replay m claims sub s
    advance m (cleared claims sub) s =
        let (r, t) =
          strict_write m.faults.write (replay_id_of X raw_token claims) (expiry_of X claims)
            s.used in
        (done (conclude m claims sub r), record s { used = t })
    advance m (done r) s = (done r, s)

    -- So many steps of one task, at one moment and with no other between them.
    unfoldable pub drive : Moment → ℕ → Phase → Shared Jwk → Phase × Shared Jwk
    unfolding advance
    drive m zero p s = (p, s)
    drive m (suc n) p s = let (q, t) = advance m p s in drive m n q t
