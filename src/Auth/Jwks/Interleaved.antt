-- ===== src/Auth/Jwks/Interleaved.antt =====
-- Refreshes that run at the same time (src/auth/jwks.rs): a forced refresh takes the lock of the cache
-- three times, for its checks, for its stamp and for its result, and the background refresh twice;
-- between these any other task may run.
pub mod Guards
pub mod Sources
pub mod Tests
use mathlib.Core.Path.{subst}
use jwt_exchange.Prelude.{
  ℕ, ◌+◌, ◌≤◌, ◌<◌, String, ◌≡◌, ◌≢◌, refl, sym, ap, ◌∙◌, Bool, true, false, Option, none, some,
  List, [], ◌∷◌, ◌++◌, length, length-append, arith, leb, if◌then◌else◌, Bool-cases, ◌⊎◌, inl, inr,
}
use jwt_exchange.Result.{Result, ok, err}
use jwt_exchange.Error.{ServiceError, jwks}
use jwt_exchange.Maps.{Map}
use jwt_exchange.Str.{contains_str}
use jwt_exchange.Crates.{Crates, Client}
use jwt_exchange.Auth.Jwks.{
  CachedJwks, index_keys, fetch_jwks_with_etag, refreshed, cooling, gate, stamp, settle,
}

-- An answer of the network: the address and the tag of its request, and what `fetch_jwks_with_etag`
-- makes of it.
pub record Answer (Jwk : Type 0) : Type 0 where
  pub uri : String
  pub sent : Option String
  pub found : Result (List Jwk × Option String) ServiceError

-- The cache, and the tasks between their locks: the forced refreshes that have passed the checks, and
-- those that have stamped the cache and wait for the network, each with the address that it was given;
-- and the background refreshes with the address and the tag that they have read. `begun` counts the
-- requests that forced refreshes have begun, and `answered` are the answers that the tasks have got from
-- the network, the last one first.
pub record System (Jwk : Type 0) : Type 0 where
  pub cache : CachedJwks Jwk
  pub passed : List String
  pub waiting : List String
  pub background : List (String × Option String)
  pub begun : ℕ
  pub answered : List (Answer Jwk)

module _ (X : Crates) where
  open X use {Jwk}

  abbrev pub answer : Client → String → Option String → Answer Jwk
  answer client uri sent = record {
    uri = uri;
    sent = sent;
    found = fetch_jwks_with_etag X client uri sent;
  }

  abbrev pub settled : Client → String → List String → System Jwk → System Jwk
  settled client uri others s = record s {
    cache = (settle X (fetch_jwks_with_etag X client uri none) s.cache).1;
    waiting = others;
    answered = answer client uri none ∷ s.answered;
  }

  abbrev pub updated :
      Client → String → Option String → List (String × Option String) → System Jwk → System Jwk
  updated client uri etag others s = record s {
    cache = (refreshed X (fetch_jwks_with_etag X client uri etag) s.cache).1;
    background = others;
    answered = answer client uri etag ∷ s.answered;
  }

  -- One lock of one task. Checks are made before `until`, and stamps not before `from`. A check that
  -- fails ends its task and changes nothing.
  pub data Step (from until : ℕ) : System Jwk → System Jwk → Type 0 where
    check :
        (s : System Jwk) (now : ℕ) (uri : String)
        → now < until
        → gate now s.cache ≡ ok tt
        → Step from until s (record s { passed = uri ∷ s.passed })
    attempt :
        (s : System Jwk) (mark : ℕ) (uri : String) (earlier later : List String)
        → from ≤ mark
        → s.passed ≡ earlier ++ uri ∷ later
        → Step from until s (record s {
          cache = stamp mark s.cache;
          passed = earlier ++ later;
          waiting = uri ∷ s.waiting;
          begun = s.begun + 1;
        })
    result :
        (s : System Jwk) (client : Client) (uri : String) (earlier later : List String)
        → s.waiting ≡ earlier ++ uri ∷ later
        → Step from until s (settled client uri (earlier ++ later) s)
    read :
        (s : System Jwk)
        → Step from until s
            (record s { background = (s.cache.jwks_uri, s.cache.etag) ∷ s.background })
    update :
        (s : System Jwk) (client : Client) (uri : String) (etag : Option String)
        (earlier later : List (String × Option String))
        → s.background ≡ earlier ++ (uri, etag) ∷ later
        → Step from until s (updated client uri etag (earlier ++ later) s)

  pub data Reach (from until : ℕ) (s : System Jwk) : System Jwk → Type 0 where
    here : Reach from until s s
    next : {t u : System Jwk} → Reach from until s t → Step from until t u → Reach from until s u

  -- What a result does to what guards the forced refreshes.
  pub settle_guards :
      (r : Result (List Jwk × Option String) ServiceError) (c : CachedJwks Jwk)
      → ((settle X r c).1.last_force_refresh ≡ c.last_force_refresh)
        × ((settle X r c).1.jwks_uri ≡ c.jwks_uri)
  unfolding settle
  settle_guards (ok found) c = (refl, refl)
  settle_guards (err e) c = (refl, refl)

  abbrev pub Guards : CachedJwks Jwk → CachedJwks Jwk → Type 0
  Guards c d =
      (d.last_force_refresh ≡ c.last_force_refresh)
      × (d.consecutive_force_refresh_failures ≡ c.consecutive_force_refresh_failures)
      × (d.jwks_uri ≡ c.jwks_uri)

  pub refreshed-Guards :
      (r : Result (List Jwk × Option String) ServiceError) (c : CachedJwks Jwk)
      → Guards c (refreshed X r c).1
  refreshed-Guards (ok found) c = (refl, refl, refl)
  refreshed-Guards (err (jwks msg)) c = elim (Bool-cases (contains_str msg "not modified")) [
    | inl said ↦ rw said (refl, refl, refl)
    | inr other ↦ rw other (refl, refl, refl)
  ]
  refreshed-Guards (err _) c = (refl, refl, refl)

  pub gate-ok_inv :
      (now : ℕ) (c : CachedJwks Jwk)
      → gate now c ≡ ok tt
      → (cooling now c.last_force_refresh ≡ false) × (c.consecutive_force_refresh_failures < 5)
  unfolding gate
  gate-ok_inv now c h = (ground arith, ground arith)
