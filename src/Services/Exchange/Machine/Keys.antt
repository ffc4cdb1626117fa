-- ===== src/Services/Exchange/Machine/Keys.antt =====
-- The tokens of exchanges that run at the same time (src/services/token_service.rs): what stands behind
-- each of them, in every state that the tasks reach.
use mathlib.Core.Path.{subst}
use jwt_exchange.Prelude.{String, ◌≡◌, refl, ap, ◌∙◌, Option, List, ◌∷◌, ◌++◌, All}
use jwt_exchange.Prelude.Int.{ℤ}
use jwt_exchange.Result.{ok}
use jwt_exchange.Crates.{Crates}
use jwt_exchange.Config.{AppConfig}
use jwt_exchange.Auth.Jwks.{CachedJwks, fetch_jwks_with_etag}
use jwt_exchange.Auth.Jwks.Interleaved.{Answer, answer, refreshed-Guards}
use jwt_exchange.Auth.Jwks.Interleaved.Sources.{pair_of, loaded_or, refreshed-loaded_or}
use jwt_exchange.Services.Mint.{TokenExchangeResult}
use jwt_exchange.Services.Exchange.{Shared}
use jwt_exchange.Services.Exchange.Machine.{done, advance}
use jwt_exchange.Services.Exchange.Machine.Backing.{IsHeld, Backed, MadeFrom, advance-Backed}
use jwt_exchange.Services.Exchange.Machine.Held.{
  Backed-grow, Backed-answers, answers-Addressed, advance-IsHeld,
}
use jwt_exchange.Services.Exchange.Machine.Tasks.{
  Task, System, Step, arrive, move, read, renew, purge, Reach, here, next, start, answers, All-take,
  All-put, All-map,
}

module _ (X : Crates) (config : AppConfig) (first : CachedJwks X.Jwk) where
  open X use {Jwk}

  abbrev pub Known : List (Answer Jwk) → Task X → Type 0
  Known answered t = Backed X config first answered t.raw_token t.requested t.phase

  abbrev pub Addressed : List (Answer Jwk) → Type 0
  Addressed answered = All (λ a. a.uri ≡ first.jwks_uri) answered

  pub record Inv (s : System X) : Type 0 where
    pub known : All (Known s.answered) s.tasks
    pub held : IsHeld X config first s.answered s.shared.cache
    pub asked : Addressed s.answered
    pub read_at : All (λ b. b.0 ≡ first.jwks_uri) s.background

  pub start-Inv : (shared : Shared Jwk) → shared.cache ≡ first → Inv (start X shared)
  start-Inv shared e = record {
    known = tt;
    held = (ap (pair_of X) e, ap (λ c. c.jwks_uri) e);
    asked = tt;
    read_at = tt;
  }

  module _ {horizon : ℤ} where
    pub Step-Inv : {s t : System X} → Step X config horizon s t → Inv s → Inv t
    Step-Inv (arrive s raw requested) v = record {
      known = (tt, v.known);
      held = v.held;
      asked = v.asked;
      read_at = v.read_at;
    }
    Step-Inv (move s m key earlier t later e) v =
        let (known, others) =
          All-take (Known s.answered) earlier later t (subst (All (Known s.answered)) e v.known) in
        let (p, _) = advance X config key t.raw_token t.requested m t.phase s.shared in
        let grow = Backed-answers X config first s.answered key t.raw_token t.requested m t.phase in
        record {
          known =
              All-put (Known (answers X m t.phase s.answered)) earlier later
                (record t { phase = p })
                (grow t.raw_token t.requested p (
                  advance-Backed X config first s.answered key t.raw_token t.requested m t.phase
                    s.shared v.held known))
                (All-map (λ u. grow u.raw_token u.requested u.phase) (earlier ++ later) others);
          held =
              advance-IsHeld X config first s.answered key t.raw_token t.requested m t.phase
                s.shared v.held;
          asked =
              answers-Addressed X config first s.answered key t.raw_token t.requested m t.phase
                known v.asked;
          read_at = v.read_at;
        }
    Step-Inv (read s) v = record {
      known = v.known;
      held = v.held;
      asked = v.asked;
      read_at = (v.held.1, v.read_at);
    }
    Step-Inv (renew s client uri etag earlier later e) v =
        let found = fetch_jwks_with_etag X client uri etag in
        let (_, _, same) = refreshed-Guards X found s.shared.cache in
        let (at, rest) =
          All-take (λ (b : String × Option String). b.0 ≡ first.jwks_uri) earlier later (uri, etag)
            (subst (All (λ b. b.0 ≡ first.jwks_uri)) e v.read_at) in
        record {
          known =
              All-map
                (λ u.
                  Backed-grow X config first s.answered (answer X client uri etag) u.raw_token
                    u.requested u.phase)
                s.tasks v.known;
          held = (
            refreshed-loaded_or X found s.shared.cache ∙ ap (loaded_or X found) v.held.0,
            same ∙ v.held.1,
          );
          asked = (at, v.asked);
          read_at = rest;
        }
    Step-Inv (purge s f now h) v = record {
      known = v.known;
      held = v.held;
      asked = v.asked;
      read_at = v.read_at;
    }

    Reach-Inv : {s t : System X} → Reach X config horizon s t → Inv s → Inv t
    Reach-Inv here v = v
    Reach-Inv (next r st) v = Step-Inv st (Reach-Inv r v)

-- However the steps of exchanges, refreshes and purges interleave, all answers of the network that they
-- got were to requests at the address that the first cache has; and a task that ended with a token had
-- a token within the size limit, whose header names a key that the cache held after some of these
-- answers, among the keys of the last of them that had keys, or of the first cache where none had. With
-- that key the configured rules gave claims with a subject, and its token was made from these claims
-- for the groups that its request asked for.
pub reached-MadeFrom :
    (X : Crates) (config : AppConfig) (horizon : ℤ) (shared : Shared X.Jwk) (s : System X)
    (earlier later : List (Task X)) (t : Task X) (r : TokenExchangeResult)
    → Reach X config horizon (start X shared) s
    → s.tasks ≡ earlier ++ t ∷ later
    → t.phase ≡ done (ok r)
    → All (λ a. a.uri ≡ shared.cache.jwks_uri) s.answered
      × MadeFrom X config shared.cache s.answered t.raw_token t.requested r
reached-MadeFrom X config horizon shared s earlier later t r reach e ended =
    let v = Reach-Inv X config shared.cache reach (start-Inv X config shared.cache shared refl) in
    let (known, _) =
      All-take (Known X config shared.cache s.answered) earlier later t
        (subst (All (Known X config shared.cache s.answered)) e v.known) in
    (v.asked, subst (Backed X config shared.cache s.answered t.raw_token t.requested) ended known)
