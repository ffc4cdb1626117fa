-- ===== src/Services/Exchange/Machine/Backing.antt =====
-- What stands behind the tokens that concurrent exchanges give (src/services/token_service.rs over the
-- cache of src/auth/jwks.rs): what is known of a task at each of its phases.
use Prim.Native.String.{◌++◌ as concat}
use jwt_exchange.Prelude.{
  String, ◌≡◌, refl, Bool, true, false, Option, none, some, List, [], ◌++◌, ltb, if◌then◌else◌, len,
  sym, ap, ◌∙◌,
}
use jwt_exchange.Result.{Result, ok, err, map_err}
use jwt_exchange.Error.{ServiceError, jwks, malformed_token, unknown_kid}
use jwt_exchange.Maps.{lookup}
use jwt_exchange.Crates.{Crates, InboundClaims}
use jwt_exchange.Config.{AppConfig}
use jwt_exchange.Auth.Jwks.{CachedJwks, fetch_jwks_with_etag, gate, stamp, settle}
use jwt_exchange.Auth.Jwks.Interleaved.{Answer}
use jwt_exchange.Auth.Jwks.Interleaved.Sources.{pair_of, loaded_by}
use jwt_exchange.Db.Replay.{select_jti, replay_write, strict_write}
use jwt_exchange.Services.Kid.{extract_kid}
use jwt_exchange.Services.Mint.{
  Moment, TokenExchangeResult, has_groups, validate, replay_id_of, expiry_of, mint,
}
use jwt_exchange.Services.Exchange.{Shared, key_of}
use jwt_exchange.Services.Exchange.Machine.{
  Phase, arrived, looking, missed, retried, checking, passed, waiting, keyed, valid, cleared, done,
  with_key, looked_up, first_lookup, after_kid, after_checks, after_fetch, after_subject,
  after_validation, conclude, after_read, at_table, advance,
}

module _ (X : Crates) (config : AppConfig) (first : CachedJwks X.Jwk)
    (answered : List (Answer X.Jwk)) where
  open X use {Value, Jwk, DecodingKey, EncodingKey, from_jwk}

  -- The token is within the size limit and its header has this key identifier.
  abbrev pub Named : String → String → Type 0
  Named raw kid = (ltb config.max_token_size (len raw) ≡ false) × (extract_kid X raw ≡ ok kid)

  -- The cache holds the keys of the last answer that had keys, or else those of the first cache, and
  -- its address is that of the first.
  abbrev pub IsHeld : CachedJwks Jwk → Type 0
  IsHeld c = (pair_of X c ≡ loaded_by X first answered) × (c.jwks_uri ≡ first.jwks_uri)

  -- The key was filed under the identifier of the token in the cache, after some of the answers.
  abbrev pub HasOrigin : String → DecodingKey → Type 0
  HasOrigin raw dk =
      (kid : String) × (jwk : Jwk) × (later : List (Answer Jwk)) × (earlier : List (Answer Jwk))
      × Named raw kid
      × (answered ≡ later ++ earlier)
      × (lookup kid (loaded_by X first earlier).0 ≡ some jwk)
      × (from_jwk jwk ≡ ok dk)

  -- The configured rules, at some moment and with such a key, give these claims, which have a subject.
  abbrev pub Validated : String → InboundClaims Value → String → Type 0
  Validated raw claims sub =
      (m : Moment) × (dk : DecodingKey) × HasOrigin raw dk
      × (validate X config m raw dk ≡ ok claims)
      × (claims.sub ≡ some sub)

  -- A token was made from such claims for these groups.
  abbrev pub MadeFrom : String → Option (List String) → TokenExchangeResult → Type 0
  MadeFrom raw requested r =
      (claims : InboundClaims Value) × (sub : String) × (m : Moment) × (key : EncodingKey)
      × Validated raw claims sub
      × (mint X config m key claims sub (replay_id_of X raw claims) requested ≡ ok r)

  -- What is known of a task at each phase.
  abbrev pub Backed : String → Option (List String) → Phase X → Type 0
  Backed raw requested arrived = Unit
  Backed raw requested (looking kid) = Named raw kid
  Backed raw requested (missed kid) = Named raw kid
  Backed raw requested (retried kid) = Named raw kid
  Backed raw requested (checking kid uri) = Named raw kid × (uri ≡ first.jwks_uri)
  Backed raw requested (passed kid uri) = Named raw kid × (uri ≡ first.jwks_uri)
  Backed raw requested (waiting kid uri) = Named raw kid × (uri ≡ first.jwks_uri)
  Backed raw requested (keyed dk) = HasOrigin raw dk
  Backed raw requested (valid claims sub) = Validated raw claims sub
  Backed raw requested (cleared claims sub) =
      Validated raw claims sub × (config.allow_replay ≡ false)
  Backed raw requested (done (ok r)) = MadeFrom raw requested r
  Backed raw requested (done (err e)) = Unit

  module _ (key : EncodingKey) (raw : String) (requested : Option (List String)) (m : Moment) where
    abbrev Stands : Phase X → Type 0
    Stands p = Backed raw requested p

    named :
        (k : Result String ServiceError)
        → ltb config.max_token_size (len raw) ≡ false
        → extract_kid X raw ≡ k
        → Stands (after_kid X k)
    named (ok kid) small e = (small, e)
    named (err x) small e = tt

    sized :
        (large : Bool)
        → ltb config.max_token_size (len raw) ≡ large
        → Stands (if large then done (err malformed_token) else after_kid X (extract_kid X raw))
    sized true e = tt
    sized false e = named (extract_kid X raw) e refl

    with_key-Backed :
        (kid : String) (jwk : Jwk)
        → Named raw kid
        → lookup kid (loaded_by X first answered).0 ≡ some jwk
        → Stands (with_key X (key_of X kid jwk))
    unfolding key_of
    with_key-Backed kid jwk n e = after (from_jwk jwk) refl
      where
        after :
            (r : Result DecodingKey String)
            → from_jwk jwk ≡ r
            → Stands (
                with_key X (
                  map_err
                    (λ e. jwks (concat "invalid JWK for kid " (concat kid (concat ": " e))))
                    r))
        after (ok dk) q = (kid, jwk, [], answered, n, refl, e, q)
        after (err x) q = tt

    -- Both lookups: the first, and the one after the forced refresh.
    lookup-Backed :
        (kid : String) (c : CachedJwks Jwk)
        → Named raw kid
        → IsHeld c
        → Stands (first_lookup X kid (lookup kid c.keys_by_kid))
          × Stands (looked_up X unknown_kid kid (lookup kid c.keys_by_kid))
    lookup-Backed kid c n held = after (lookup kid c.keys_by_kid) refl
      where
        after :
            (o : Option Jwk)
            → lookup kid c.keys_by_kid ≡ o
            → Stands (first_lookup X kid o) × Stands (looked_up X unknown_kid kid o)
        after none e = (n, tt)
        after (some jwk) e =
            let b = with_key-Backed kid jwk n (ap (λ z. lookup kid z.0) (sym held.0) ∙ e) in (b, b)

    validation-Backed :
        (dk : DecodingKey)
        → HasOrigin raw dk
        → Stands (after_validation X (validate X config m raw dk))
    validation-Backed dk origin = after (validate X config m raw dk) refl
      where
        subject :
            (claims : InboundClaims Value) (o : Option String)
            → validate X config m raw dk ≡ ok claims
            → claims.sub ≡ o
            → Stands (after_subject X claims o)
        subject claims none v e = tt
        subject claims (some sub) v e = (m, dk, origin, v, e)

        after :
            (r : Result (InboundClaims Value) ServiceError)
            → validate X config m raw dk ≡ r
            → Stands (after_validation X r)
        after (ok claims) v = subject claims claims.sub v refl
        after (err e) v = tt

    conclude-Backed :
        (claims : InboundClaims Value) (sub : String) (answer : Result Bool String)
        → Validated raw claims sub
        → Stands (done (conclude X config key raw requested m claims sub answer))
    unfolding conclude
    conclude-Backed claims sub (err e) v = tt
    conclude-Backed claims sub (ok true) v = tt
    conclude-Backed claims sub (ok false) v =
        minted (mint X config m key claims sub (replay_id_of X raw claims) requested) refl
      where
        minted :
            (r : Result TokenExchangeResult ServiceError)
            → mint X config m key claims sub (replay_id_of X raw claims) requested ≡ r
            → Stands (done r)
        minted (ok r) e = (claims, sub, m, key, v, e)
        minted (err x) e = tt

    table-Backed :
        (allow : Bool) (claims : InboundClaims Value) (sub : String) (s : Shared Jwk)
        → config.allow_replay ≡ allow
        → Validated raw claims sub
        → Stands (at_table X config key raw requested allow m claims sub s).0
    table-Backed true claims sub s mode v =
        conclude-Backed claims sub
          (replay_write m.faults.write (replay_id_of X raw claims) (expiry_of X claims)
            (has_groups requested) s.used).0
          v
    table-Backed false claims sub s mode v =
        after (select_jti m.faults.read (replay_id_of X raw claims) s.used)
      where
        after :
            (r : Result Bool String) → Stands (after_read X config key raw requested m claims sub r)
        after (ok true) = conclude-Backed claims sub (ok true) v
        after (ok false) = (v, mode)
        after (err e) = conclude-Backed claims sub (err e) v

    checks-Backed :
        (kid uri : String) (g : Result (Unit {0}) ServiceError)
        → Named raw kid × (uri ≡ first.jwks_uri)
        → Stands (after_checks X kid uri g) × Stands (after_fetch X kid g)
    checks-Backed kid uri (ok _) b = (b, b.0)
    checks-Backed kid uri (err e) b = (tt, tt)

    -- Each step keeps what is known of its task.
    pub advance-Backed :
        (p : Phase X) (s : Shared Jwk)
        → IsHeld s.cache
        → Backed raw requested p
        → Backed raw requested (advance X config key raw requested m p s).0
    unfolding advance stamp
    advance-Backed arrived s c b = sized (ltb config.max_token_size (len raw)) refl
    advance-Backed (looking kid) s c b = (lookup-Backed kid s.cache b c).0
    advance-Backed (missed kid) s c b = (b, c.1)
    advance-Backed (retried kid) s c b = (lookup-Backed kid s.cache b c).1
    advance-Backed (checking kid uri) s c b =
        (checks-Backed kid uri (gate m.cooldown_at s.cache) b).0
    advance-Backed (passed kid uri) s c b = b
    advance-Backed (waiting kid uri) s c b =
        (checks-Backed kid uri (settle X (fetch_jwks_with_etag X m.client uri none) s.cache).0 b).1
    advance-Backed (keyed dk) s c b = validation-Backed dk b
    advance-Backed (valid claims sub) s c b = table-Backed config.allow_replay claims sub s refl b
    advance-Backed (cleared claims sub) s c b =
        conclude-Backed claims sub
          (strict_write m.faults.write (replay_id_of X raw claims) (expiry_of X claims) s.used).0
          b.0
    advance-Backed (done r) s c b = b
