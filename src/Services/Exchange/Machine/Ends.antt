-- ===== src/Services/Exchange/Machine/Ends.antt =====
-- A task of an exchange (src/services/token_service.rs) ends, whatever the other tasks do to the shared
-- state between its steps.
use jwt_exchange.Prelude.{
  ℕ, suc, ◌≤◌, String, len, ◌≡◌, refl, Bool, true, false, Option, none, some, List, [], ◌∷◌, length,
  arith, ltb, if◌then◌else◌,
}
use jwt_exchange.Result.{Result, ok, err}
use jwt_exchange.Error.{ServiceError, malformed_token, unknown_kid}
use jwt_exchange.Maps.{lookup}
use jwt_exchange.Crates.{Crates, InboundClaims}
use jwt_exchange.Config.{AppConfig}
use jwt_exchange.Auth.Jwks.{fetch_jwks_with_etag, gate, settle}
use jwt_exchange.Db.Replay.{select_jti}
use jwt_exchange.Services.Kid.{extract_kid}
use jwt_exchange.Services.Mint.{Moment, TokenExchangeResult, validate, replay_id_of}
use jwt_exchange.Services.Exchange.{Shared, key_of}
use jwt_exchange.Services.Exchange.Machine.{
  Phase, arrived, looking, missed, retried, checking, passed, waiting, keyed, valid, cleared, done,
  with_key, looked_up, first_lookup, after_kid, after_checks, after_fetch, after_subject,
  after_validation, after_read, at_table, advance,
}

module _ (X : Crates) where
  open X use {Value, Jwk, DecodingKey, EncodingKey}

  abbrev pub HasResult : Phase X → Type 0
  HasResult p = (r : Result TokenExchangeResult ServiceError) × (p ≡ done r)

  -- How many steps a task has left at most.
  abbrev rank : Phase X → ℕ
  rank arrived = 10
  rank (looking kid) = 9
  rank (missed kid) = 8
  rank (checking kid uri) = 7
  rank (passed kid uri) = 6
  rank (waiting kid uri) = 5
  rank (retried kid) = 4
  rank (keyed dk) = 3
  rank (valid claims sub) = 2
  rank (cleared claims sub) = 1
  rank (done r) = 0

  rank-sized :
      (large : Bool) (k : Result String ServiceError)
      → rank (if large then done (err malformed_token) else after_kid X k) ≤ 9
  rank-sized true k = omega arith
  rank-sized false (ok kid) = omega arith
  rank-sized false (err e) = omega arith

  rank-with_key : (r : Result DecodingKey ServiceError) → rank (with_key X r) ≤ 3
  rank-with_key (ok dk) = omega arith
  rank-with_key (err e) = omega arith

  rank-lookup :
      (kid : String) (o : Option Jwk)
      → (rank (first_lookup X kid o) ≤ 8) × (rank (looked_up X unknown_kid kid o) ≤ 3)
  rank-lookup kid none = (omega arith, omega arith)
  rank-lookup kid (some jwk) =
      (omega (arith, rank-with_key (key_of X kid jwk)), rank-with_key (key_of X kid jwk))

  rank-checks :
      (kid uri : String) (g : Result (Unit {0}) ServiceError)
      → (rank (after_checks X kid uri g) ≤ 6) × (rank (after_fetch X kid g) ≤ 4)
  rank-checks kid uri (ok _) = (omega arith, omega arith)
  rank-checks kid uri (err e) = (omega arith, omega arith)

  rank-validation :
      (v : Result (InboundClaims Value) ServiceError) → rank (after_validation X v) ≤ 2
  rank-validation (err e) = omega arith
  rank-validation (ok claims) = subject claims.sub
    where
      subject : (o : Option String) → rank (after_subject X claims o) ≤ 2
      subject none = omega arith
      subject (some sub) = omega arith

  module _ (config : AppConfig) (key : EncodingKey) (raw_token : String)
      (requested : Option (List String)) where
    rank-table :
        (allow : Bool) (m : Moment) (claims : InboundClaims Value) (sub : String) (s : Shared Jwk)
        → rank (at_table X config key raw_token requested allow m claims sub s).0 ≤ 1
    rank-table true m claims sub s = omega arith
    rank-table false m claims sub s =
        after (select_jti m.faults.read (replay_id_of X raw_token claims) s.used)
      where
        after :
            (r : Result Bool String)
            → rank (after_read X config key raw_token requested m claims sub r) ≤ 1
        after (ok true) = omega arith
        after (ok false) = omega arith
        after (err e) = omega arith

    -- Each step leaves one less, until none is left.
    advance-rank :
        (m : Moment) (p : Phase X) (s : Shared Jwk) (n : ℕ)
        → rank p ≤ suc n
        → rank (advance X config key raw_token requested m p s).0 ≤ n
    unfolding advance
    advance-rank m arrived s n h =
        omega (
          arith,
          h,
          rank-sized (ltb config.max_token_size (len raw_token)) (extract_kid X raw_token),
        )
    advance-rank m (looking kid) s n h =
        omega (arith, h, (rank-lookup kid (lookup kid s.cache.keys_by_kid)).0)
    advance-rank m (missed kid) s n h = omega (arith, h)
    advance-rank m (checking kid uri) s n h =
        omega (arith, h, (rank-checks kid uri (gate m.cooldown_at s.cache)).0)
    advance-rank m (passed kid uri) s n h = omega (arith, h)
    advance-rank m (waiting kid uri) s n h = omega (
      arith,
      h,
      (rank-checks kid uri (settle X (fetch_jwks_with_etag X m.client uri none) s.cache).0).1,
    )
    advance-rank m (retried kid) s n h =
        omega (arith, h, (rank-lookup kid (lookup kid s.cache.keys_by_kid)).1)
    advance-rank m (keyed dk) s n h =
        omega (arith, h, rank-validation (validate X config m raw_token dk))
    advance-rank m (valid claims sub) s n h =
        omega (arith, h, rank-table config.allow_replay m claims sub s)
    advance-rank m (cleared claims sub) s n h = omega arith
    advance-rank m (done r) s n h = omega arith

    -- The steps of a task, each at its own moment and on the state that it finds then.
    unfoldable pub interrupted : List (Moment × Shared Jwk) → Phase X → Phase X
    interrupted [] p = p
    interrupted ((m, s) ∷ views) p =
        interrupted views (advance X config key raw_token requested m p s).0

    rank-interrupted :
        (views : List (Moment × Shared Jwk)) (p : Phase X)
        → rank p ≤ length views
        → rank (interrupted views p) ≤ 0
    unfolding interrupted
    rank-interrupted [] p h = h
    rank-interrupted ((m, s) ∷ views) p h =
        rank-interrupted views (advance X config key raw_token requested m p s).0
          (advance-rank m p s (length views) (omega (arith, h)))

    ended-of_rank : (p : Phase X) → rank p ≤ 0 → HasResult p
    ended-of_rank (done r) h = (r, refl)
    ended-of_rank arrived h = absurd (omega (arith, h))
    ended-of_rank (looking kid) h = absurd (omega (arith, h))
    ended-of_rank (missed kid) h = absurd (omega (arith, h))
    ended-of_rank (checking kid uri) h = absurd (omega (arith, h))
    ended-of_rank (passed kid uri) h = absurd (omega (arith, h))
    ended-of_rank (waiting kid uri) h = absurd (omega (arith, h))
    ended-of_rank (retried kid) h = absurd (omega (arith, h))
    ended-of_rank (keyed dk) h = absurd (omega (arith, h))
    ended-of_rank (valid claims sub) h = absurd (omega (arith, h))
    ended-of_rank (cleared claims sub) h = absurd (omega (arith, h))

    -- A task that has made ten steps or more of its own has ended, with a token or an error, whatever
    -- the shared state was at each of them and whatever the network, the clock and the database
    -- answered.
    pub interrupted_ends :
        (views : List (Moment × Shared Jwk))
        → 10 ≤ length views
        → HasResult (interrupted views arrived)
    interrupted_ends views h =
        ended-of_rank (interrupted views arrived) (rank-interrupted views arrived h)
