-- ===== src/Services/Exchange/Machine/Weights.antt =====
-- How often concurrent exchanges give a token for one token (src/services/token_service.rs over the
-- table of src/db/audit.rs): the tasks that ended with one are no more than the accepted rows.
use mathlib.Core.Path.{subst}
use jwt_exchange.Prelude.{
  ℕ, ◌+◌, ◌≤◌, String, len, ◌≡◌, refl, Bool, true, false, ◌&&◌, Option, none, some, List, [], ◌∷◌,
  ◌++◌, arith, str_eq, ltb, if◌then◌else◌, inl, inr,
}
use jwt_exchange.Result.{Result, ok, err, Result-cases}
use jwt_exchange.Error.{ServiceError, malformed_token, unknown_kid}
use jwt_exchange.Maps.{lookup}
use jwt_exchange.Crates.{Crates, InboundClaims}
use jwt_exchange.Config.{AppConfig}
use jwt_exchange.Auth.Jwks.{CachedJwks, fetch_jwks_with_etag, gate, settle}
use jwt_exchange.Auth.Jwks.Interleaved.{Answer}
use jwt_exchange.Db.Replay.{Row, groups_int, select_jti, replay_write, strict_write}
use jwt_exchange.Db.Replay.Table.{count}
use jwt_exchange.Db.Replay.Interleaved.{note, row}
use jwt_exchange.Services.Kid.{extract_kid}
use jwt_exchange.Services.Mint.{Moment, has_groups, validate, replay_id_of, expiry_of, mint}
use jwt_exchange.Services.Exchange.{Shared, key_of}
use jwt_exchange.Services.Exchange.Machine.{
  Phase, arrived, looking, missed, retried, checking, passed, waiting, keyed, valid, cleared, done,
  with_key, looked_up, first_lookup, after_kid, after_checks, after_fetch, after_subject,
  after_validation, conclude, after_read, at_table, advance,
}
use jwt_exchange.Services.Exchange.Machine.Tasks.{Task, accepts, accepts_at}
use jwt_exchange.Services.Exchange.Machine.Backing.{Backed, Validated}

-- The row that a mode writes for a request: without `allow_replay` it does not tell the groups.
abbrev pub stored : Bool → Option (List String) → ℕ
stored true requested = groups_int (has_groups requested)
stored false requested = 0

module _ (X : Crates) where
  open X use {Value, Jwk, DecodingKey, EncodingKey}

  -- The task ended with a token.
  abbrev pub has_ended : Phase X → Bool
  has_ended (done (ok r)) = true
  has_ended _ = false

  -- The task ended with a token for this token and for groups of this kind.
  abbrev pub gives : String → (Option (List String) → Bool) → Task X → Bool
  gives raw kind t = (str_eq t.raw_token raw && kind t.requested) && has_ended t.phase

  -- How many tasks gave a token for this token and for groups of this kind.
  unfoldable pub exchanged : String → (Option (List String) → Bool) → List (Task X) → ℕ
  exchanged raw kind [] = 0
  exchanged raw kind (t ∷ tasks) = (if gives raw kind t then 1 else 0) + exchanged raw kind tasks

  pub exchanged-at :
      (raw : String) (kind : Option (List String) → Bool) (earlier later : List (Task X))
      (t : Task X)
      → exchanged raw kind (earlier ++ t ∷ later)
        ≡ (if gives raw kind t then 1 else 0) + exchanged raw kind (earlier ++ later)
  unfolding exchanged
  exchanged-at raw kind [] later t = refl
  exchanged-at raw kind (x ∷ earlier) later t = omega (arith, exchanged-at raw kind earlier later t)

  kid-not_ended : (k : Result String ServiceError) → has_ended (after_kid X k) ≡ false
  kid-not_ended (ok kid) = refl
  kid-not_ended (err e) = refl

  sized-not_ended :
      (large : Bool) (k : Result String ServiceError)
      → has_ended (if large then done (err malformed_token) else after_kid X k) ≡ false
  sized-not_ended true k = refl
  sized-not_ended false k = kid-not_ended k

  with_key-not_ended : (r : Result DecodingKey ServiceError) → has_ended (with_key X r) ≡ false
  with_key-not_ended (ok dk) = refl
  with_key-not_ended (err e) = refl

  lookup-not_ended :
      (kid : String) (o : Option Jwk)
      → (has_ended (first_lookup X kid o) ≡ false)
        × (has_ended (looked_up X unknown_kid kid o) ≡ false)
  lookup-not_ended kid none = (refl, refl)
  lookup-not_ended kid (some jwk) =
      (with_key-not_ended (key_of X kid jwk), with_key-not_ended (key_of X kid jwk))

  checks-not_ended :
      (kid uri : String) (g : Result (Unit {0}) ServiceError)
      → (has_ended (after_checks X kid uri g) ≡ false) × (has_ended (after_fetch X kid g) ≡ false)
  checks-not_ended kid uri (ok _) = (refl, refl)
  checks-not_ended kid uri (err e) = (refl, refl)

  validation-not_ended :
      (v : Result (InboundClaims Value) ServiceError) → has_ended (after_validation X v) ≡ false
  validation-not_ended (err e) = refl
  validation-not_ended (ok claims) = subject claims.sub
    where
      subject : (o : Option String) → has_ended (after_subject X claims o) ≡ false
      subject none = refl
      subject (some sub) = refl

  module _ (config : AppConfig) (key : EncodingKey) (raw_token : String)
      (requested : Option (List String)) (m : Moment) (counted : Bool) (counts : Row → Bool) where
    -- What a task and the accepted rows count for.
    abbrev weight : Phase X → List Row → ℕ
    weight p acc = (if counted && has_ended p then 1 else 0) + count counts acc

    quiet : (p : Phase X) (acc : List Row) → has_ended p ≡ false → weight p acc ≤ count counts acc
    quiet p acc e = rw e (ground arith)

    -- An answer that lets an exchange give a token has an accepted row, which counts.
    conclude-weight :
        (claims : InboundClaims Value) (sub : String) (r : Row) (answer : Result Bool String)
        (acc : List Row)
        → (counted ≡ true → counts r ≡ true)
        → weight (done (conclude X config key raw_token requested m claims sub answer)) acc
          ≤ count counts (note answer r acc)
    unfolding conclude count
    conclude-weight claims sub r (err e) acc h = ground arith
    conclude-weight claims sub r (ok true) acc h = ground arith
    conclude-weight claims sub r (ok false) acc h =
        elim (Result-cases
          (mint X config m key claims sub (replay_id_of X raw_token claims) requested)) [
            | inr (e, n) ↦ rw n (ground arith)
            | inl (t, n) ↦ rw n (ground (arith, h))
          ]

    module _ (first : CachedJwks Jwk) (answered : List (Answer Jwk))
        (counts_row : (claims : InboundClaims Value) (sub : String)
          → Validated X config first answered raw_token claims sub
          → counted ≡ true
          → counts (
              row
                (replay_id_of X raw_token claims)
                (stored config.allow_replay requested)
                (expiry_of X claims))
            ≡ true) where
      -- The same with the mode written out.
      counts_at :
          {allow : Bool} (claims : InboundClaims Value) (sub : String)
          → Validated X config first answered raw_token claims sub
          → config.allow_replay ≡ allow
          → counted ≡ true
          → counts
              (row (replay_id_of X raw_token claims) (stored allow requested) (expiry_of X claims))
            ≡ true
      counts_at claims sub v mode c =
          subst
            (λ a.
              counts
                (row (replay_id_of X raw_token claims) (stored a requested) (expiry_of X claims))
              ≡ true)
            mode (counts_row claims sub v c)

      table-weight :
          (allow : Bool) (claims : InboundClaims Value) (sub : String) (s : Shared Jwk)
          (acc : List Row)
          → config.allow_replay ≡ allow
          → Validated X config first answered raw_token claims sub
          → weight (at_table X config key raw_token requested allow m claims sub s).0 acc
            ≤ count counts (
                accepts_at X allow m
                  (replay_id_of X raw_token claims)
                  (expiry_of X claims)
                  requested
                  s
                  acc)
      unfolding conclude
      table-weight true claims sub s acc mode v =
          conclude-weight claims sub
            (row (replay_id_of X raw_token claims) (groups_int (has_groups requested))
              (expiry_of X claims))
            (replay_write m.faults.write (replay_id_of X raw_token claims) (expiry_of X claims)
              (has_groups requested) s.used).0
            acc (counts_at claims sub v mode)
      table-weight false claims sub s acc mode v =
          after (select_jti m.faults.read (replay_id_of X raw_token claims) s.used)
        where
          after :
              (r : Result Bool String)
              → weight (after_read X config key raw_token requested m claims sub r) acc
                ≤ count counts acc
          after (ok true) = ground arith
          after (ok false) = ground arith
          after (err e) = ground arith

      -- A step of a task makes it give a token only if it adds an accepted row that counts.
      pub advance-weight :
          (p : Phase X) (s : Shared Jwk) (acc : List Row)
          → Backed X config first answered raw_token requested p
          → weight (advance X config key raw_token requested m p s).0 acc
            ≤ weight p (accepts X config m raw_token requested p s acc)
      unfolding advance
      advance-weight arrived s acc b = omega (
        arith,
        quiet _ acc
            (sized-not_ended (ltb config.max_token_size (len raw_token)) (extract_kid X raw_token)),
      )
      advance-weight (looking kid) s acc b =
          omega (arith, quiet _ acc (lookup-not_ended kid (lookup kid s.cache.keys_by_kid)).0)
      advance-weight (missed kid) s acc b = omega arith
      advance-weight (checking kid uri) s acc b =
          omega (arith, quiet _ acc (checks-not_ended kid uri (gate m.cooldown_at s.cache)).0)
      advance-weight (passed kid uri) s acc b = omega arith
      advance-weight (waiting kid uri) s acc b = omega (
        arith,
        quiet _ acc
            (checks-not_ended kid uri
              (settle X (fetch_jwks_with_etag X m.client uri none) s.cache).0).1,
      )
      advance-weight (retried kid) s acc b =
          omega (arith, quiet _ acc (lookup-not_ended kid (lookup kid s.cache.keys_by_kid)).1)
      advance-weight (keyed dk) s acc b =
          omega (arith, quiet _ acc (validation-not_ended (validate X config m raw_token dk)))
      advance-weight (valid claims sub) s acc b =
          omega (arith, table-weight config.allow_replay claims sub s acc refl b)
      advance-weight (cleared claims sub) s acc (v, mode) = omega (
        arith,
        conclude-weight claims sub (row (replay_id_of X raw_token claims) 0 (expiry_of X claims))
            (strict_write m.faults.write (replay_id_of X raw_token claims) (expiry_of X claims)
              s.used).0
            acc (counts_at claims sub v mode),
      )
      advance-weight (done r) s acc b = omega arith
