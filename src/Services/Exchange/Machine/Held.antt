-- ===== src/Services/Exchange/Machine/Held.antt =====
-- The cache that concurrent exchanges share (src/services/token_service.rs over src/auth/jwks.rs) as the
-- answers of the network come in.
use mathlib.Core.Path.{subst}
use jwt_exchange.Prelude.{
  String, ◌≡◌, refl, sym, ap, ◌∙◌, Bool, true, false, Option, none, List, ◌∷◌, All,
}
use jwt_exchange.Result.{ok, err}
use jwt_exchange.Crates.{Crates, InboundClaims}
use jwt_exchange.Config.{AppConfig}
use jwt_exchange.Auth.Jwks.{CachedJwks, fetch_jwks_with_etag, stamp}
use jwt_exchange.Auth.Jwks.Interleaved.{Answer, answer, settle_guards}
use jwt_exchange.Auth.Jwks.Interleaved.Sources.{loaded_or, settle-loaded_or}
use jwt_exchange.Services.Mint.{Moment}
use jwt_exchange.Services.Exchange.{Shared}
use jwt_exchange.Services.Exchange.Machine.{
  Phase, arrived, looking, missed, retried, checking, passed, waiting, keyed, valid, cleared, done,
  at_table, advance,
}
use jwt_exchange.Services.Exchange.Machine.Tasks.{answers}
use jwt_exchange.Services.Exchange.Machine.Backing.{IsHeld, HasOrigin, Backed}

module _ (X : Crates) (config : AppConfig) (first : CachedJwks X.Jwk)
    (answered : List (Answer X.Jwk)) where
  open X use {Jwk, DecodingKey, EncodingKey}

  -- What is known of a task stays known after another answer.
  module _ (a : Answer Jwk) where
    HasOrigin-grow :
        (raw : String) (dk : DecodingKey)
        → HasOrigin X config first answered raw dk
        → HasOrigin X config first (a ∷ answered) raw dk
    HasOrigin-grow raw dk (kid, jwk, later, earlier, n, split, found, usable) =
        (kid, jwk, a ∷ later, earlier, n, ap (λ l. a ∷ l) split, found, usable)

    pub Backed-grow :
        (raw : String) (requested : Option (List String)) (p : Phase X)
        → Backed X config first answered raw requested p
        → Backed X config first (a ∷ answered) raw requested p
    Backed-grow raw requested arrived b = b
    Backed-grow raw requested (looking kid) b = b
    Backed-grow raw requested (missed kid) b = b
    Backed-grow raw requested (retried kid) b = b
    Backed-grow raw requested (checking kid uri) b = b
    Backed-grow raw requested (passed kid uri) b = b
    Backed-grow raw requested (waiting kid uri) b = b
    Backed-grow raw requested (keyed dk) b = HasOrigin-grow raw dk b
    Backed-grow raw requested (valid claims sub) (m, dk, origin, v, e) =
        (m, dk, HasOrigin-grow raw dk origin, v, e)
    Backed-grow raw requested (cleared claims sub) ((m, dk, origin, v, e), mode) =
        ((m, dk, HasOrigin-grow raw dk origin, v, e), mode)
    Backed-grow raw requested (done (ok r)) (claims, sub, m, key, (n, dk, origin, v, e), minted) =
        (claims, sub, m, key, (n, dk, HasOrigin-grow raw dk origin, v, e), minted)
    Backed-grow raw requested (done (err e)) b = b

  module _ (key : EncodingKey) (raw : String) (requested : Option (List String)) (m : Moment) where
    -- What the step of a task adds to the answers.
    pub Backed-answers :
        (p : Phase X) (raw' : String) (requested' : Option (List String)) (q : Phase X)
        → Backed X config first answered raw' requested' q
        → Backed X config first (answers X m p answered) raw' requested' q
    Backed-answers (waiting kid uri) raw' requested' q b =
        Backed-grow (answer X m.client uri none) raw' requested' q b
    Backed-answers arrived raw' requested' q b = b
    Backed-answers (looking kid) raw' requested' q b = b
    Backed-answers (missed kid) raw' requested' q b = b
    Backed-answers (retried kid) raw' requested' q b = b
    Backed-answers (checking kid uri) raw' requested' q b = b
    Backed-answers (passed kid uri) raw' requested' q b = b
    Backed-answers (keyed dk) raw' requested' q b = b
    Backed-answers (valid claims sub) raw' requested' q b = b
    Backed-answers (cleared claims sub) raw' requested' q b = b
    Backed-answers (done r) raw' requested' q b = b

    -- Each answer is to a request at the address of the first cache.
    pub answers-Addressed :
        (p : Phase X)
        → Backed X config first answered raw requested p
        → All (λ a. a.uri ≡ first.jwks_uri) answered
        → All (λ a. a.uri ≡ first.jwks_uri) (answers X m p answered)
    answers-Addressed (waiting kid uri) b h = (b.1, h)
    answers-Addressed arrived b h = h
    answers-Addressed (looking kid) b h = h
    answers-Addressed (missed kid) b h = h
    answers-Addressed (retried kid) b h = h
    answers-Addressed (checking kid uri) b h = h
    answers-Addressed (passed kid uri) b h = h
    answers-Addressed (keyed dk) b h = h
    answers-Addressed (valid claims sub) b h = h
    answers-Addressed (cleared claims sub) b h = h
    answers-Addressed (done r) b h = h

    table-cache :
        (allow : Bool) (claims : InboundClaims X.Value) (sub : String) (s : Shared Jwk)
        → (at_table X config key raw requested allow m claims sub s).1.cache ≡ s.cache
    table-cache true claims sub s = refl
    table-cache false claims sub s = refl

    -- Each step leaves in the cache what the answers say.
    pub advance-IsHeld :
        (p : Phase X) (s : Shared Jwk)
        → IsHeld X config first answered s.cache
        → IsHeld X config first
            (answers X m p answered)
            (advance X config key raw requested m p s).1.cache
    unfolding advance stamp
    advance-IsHeld arrived s h = h
    advance-IsHeld (looking kid) s h = h
    advance-IsHeld (missed kid) s h = h
    advance-IsHeld (retried kid) s h = h
    advance-IsHeld (checking kid uri) s h = h
    advance-IsHeld (passed kid uri) s h = h
    advance-IsHeld (waiting kid uri) s (held, address) =
        let found = fetch_jwks_with_etag X m.client uri none in
        (
          settle-loaded_or X found s.cache ∙ ap (loaded_or X found) held,
          (settle_guards X found s.cache).1 ∙ address,
        )
    advance-IsHeld (keyed dk) s h = h
    advance-IsHeld (valid claims sub) s h =
        subst (IsHeld X config first answered) (sym (table-cache config.allow_replay claims sub s))
          h
    advance-IsHeld (cleared claims sub) s h = h
    advance-IsHeld (done r) s h = h
