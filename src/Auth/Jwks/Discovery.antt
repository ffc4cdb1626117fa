-- ===== src/Auth/Jwks/Discovery.antt =====
-- The discovery of the key set at the start: the loop of `discover_jwks_uri`, and the first cache.
use Prim.Native.String.{◌++◌ as concat}
use Prim.Native.Nat.{min}
use jwt_exchange.Prelude.{
  ℕ, zero, suc, ◌+◌, ◌*◌, String, ◌≡◌, refl, Option, none, some, List, [], ◌∷◌, arith, leb,
  if◌then◌else◌, inl, inr, ◌++◌,
}
use jwt_exchange.Result.{Result, ok, err, ◌>>=◌, Result-cases}
use jwt_exchange.Error.{ServiceError, idp_unavailable}
use jwt_exchange.Config.{AppConfig}
use jwt_exchange.Crates.{Crates, Client}
use jwt_exchange.Auth.Jwks.{
  CachedJwks, index_keys, fetch_jwks_with_etag, fetch_jwks_uri_from_well_known,
}

abbrev max_wait : ℕ
max_wait = 60

-- What the loop has done when it returns: its result, and the seconds that it slept, the last first.
abbrev pub Ended : Type 0
Ended = Result String ServiceError × List ℕ

-- The loop, in whole seconds: `answer n` is what the fetch of attempt `n` gives. `none` means that
-- the fuel ran out.
unfoldable pub discover_loop : ℕ → (ℕ → Result String ServiceError) → ℕ → ℕ → List ℕ → Option Ended
discover_loop zero answer attempt backoff slept = none
discover_loop (suc fuel) answer attempt backoff slept =
    let now = attempt + 1 in
    let again = discover_loop fuel answer now (min (backoff * 2) 30) (backoff ∷ slept) in
    elim (answer now) [
      | ok uri ↦ some (ok uri, slept)
      | err e ↦ if leb max_wait (now * backoff) then some (err idp_unavailable, slept) else again
    ]

-- Five attempts are enough: the fifth waits no more.
abbrev pub discover_fuel : ℕ
discover_fuel = 5

module _ (X : Crates) where
  open X use {Jwk}

  abbrev well_known_url : AppConfig → String
  well_known_url config = concat config.inbound_issuer_uri "/.well-known/openid-configuration"

  -- `discover_jwks_uri`; `client n` is the network at the time of attempt `n`.
  unfoldable pub discover_jwks_uri : AppConfig → (ℕ → Client) → Option Ended
  unfolding discover_loop
  discover_jwks_uri config client =
      discover_loop discover_fuel
        (λ n. fetch_jwks_uri_from_well_known X (client n) (well_known_url config)) 0 1 []

  abbrev first_cache : String → List Jwk × Option String → CachedJwks Jwk
  first_cache uri (keys, etag) = record {
    keys_by_kid = index_keys X keys;
    etag = etag;
    jwks_uri = uri;
    last_force_refresh = none;
    consecutive_force_refresh_failures = 0;
  }

  abbrev load_cache : Client → Result String ServiceError → Result (CachedJwks Jwk) ServiceError
  load_cache client found = do
    uri ← found
    loaded ← fetch_jwks_with_etag X client uri none
    ok (first_cache uri loaded)

  -- `fetch_and_cache_jwks`; the key set is fetched once, from the network `last`.
  unfoldable pub fetch_and_cache_jwks :
      AppConfig → (ℕ → Client) → Client → Option (Result (CachedJwks Jwk) ServiceError)
  unfolding discover_jwks_uri
  fetch_and_cache_jwks config client last = elim (discover_jwks_uri config client) [
    | none ↦ none
    | some (found, slept) ↦ some (load_cache last found)
  ]

-- The first success among the attempts from `n` on, at most `k` of them.
abbrev pub first_answer : ℕ → ℕ → (ℕ → Result String ServiceError) → Result String ServiceError
first_answer zero n answer = err idp_unavailable
first_answer (suc k) n answer =
    let later = first_answer k (n + 1) answer in elim (answer n) [ ok uri ↦ ok uri | err e ↦ later ]

-- The loop ends within its fuel, whatever the network answers: with the first address that one of
-- the first five attempts gives, or else as unavailable after the fifth. It sleeps 1, 2, 4 and 8
-- seconds at most between them.
pub discover_loop_ends :
    (answer : ℕ → Result String ServiceError)
    → (slept : List ℕ) × (discover_loop discover_fuel answer 0 1 []
        ≡ some (first_answer 5 1 answer, slept))
      × ((earlier : List ℕ) × (earlier ++ slept ≡ 8 ∷ 4 ∷ 2 ∷ 1 ∷ []))
unfolding discover_loop
discover_loop_ends answer = elim (Result-cases (answer 1)) [
  | inl (u, a) ↦ ([], ground arith, (8 ∷ 4 ∷ 2 ∷ 1 ∷ [], refl))
  | inr (x, a) ↦ elim (Result-cases (answer 2)) [
    | inl (u, b) ↦ (1 ∷ [], ground arith, (8 ∷ 4 ∷ 2 ∷ [], refl))
    | inr (y, b) ↦ elim (Result-cases (answer 3)) [
      | inl (u, c) ↦ (2 ∷ 1 ∷ [], ground arith, (8 ∷ 4 ∷ [], refl))
      | inr (z, c) ↦ elim (Result-cases (answer 4)) [
        | inl (u, d) ↦ (4 ∷ 2 ∷ 1 ∷ [], ground arith, (8 ∷ [], refl))
        | inr (w, d) ↦ (8 ∷ 4 ∷ 2 ∷ 1 ∷ [], ground arith, ([], refl))
      ]
    ]
  ]
]

module _ (X : Crates) (config : AppConfig) (client : ℕ → Client) (last : Client) where
  open X use {Jwk}

  -- The key set of the first address that one of five attempts gives.
  abbrev pub first_fetch : Result (CachedJwks Jwk) ServiceError
  first_fetch = load_cache X last (
      first_answer 5 1 (λ n. fetch_jwks_uri_from_well_known X (client n) (well_known_url X config)))

  -- The first load of the key set always returns.
  pub fetch_and_cache_jwks_returns : fetch_and_cache_jwks X config client last ≡ some first_fetch
  unfolding fetch_and_cache_jwks discover_jwks_uri
  fetch_and_cache_jwks_returns =
      let answer =
        λ (n : ℕ). fetch_jwks_uri_from_well_known X (client n) (well_known_url X config) in
      let (slept, found, _) = discover_loop_ends answer in rw (found, fetch_and_cache_jwks) refl
