-- ===== src/Auth/Jwks.antt =====
-- src/auth/jwks.rs: fetching the keys of the identity provider, and the cache that the exchange
-- reads. A method of the cache returns its result and the cache after it. Instants and durations are
-- in nanoseconds.
pub mod Discovery
pub mod Refresh
pub mod Index
pub mod History
pub mod Interleaved
pub mod Tests
use Prim.Native.String.{◌++◌ as concat}
use mathlib.Core.Option.{bind}
use jwt_exchange.Prelude.{
  ℕ, ◌+◌, ◌-◌, ◌*◌, String, Bool, true, false, not, Option, none, some, List, [], ◌∷◌, is_empty,
  ltb, leb, ◌==◌, if◌then◌else◌,
}
use jwt_exchange.Result.{Result, ok, err, map_err, ok_or, ◌>>=◌}
use jwt_exchange.Str.{contains_str}
use jwt_exchange.Maps.{Map, insert}
use jwt_exchange.Http.{is_success}
use jwt_exchange.Error.{ServiceError, jwks, other, idp_unavailable}
use jwt_exchange.Config.{AppConfig}
use jwt_exchange.Crates.{Crates, Client, Response}

abbrev pub secs : ℕ → ℕ
secs n = n * 1000000000

abbrev pub jwks_force_refresh_cooldown : ℕ
jwks_force_refresh_cooldown = secs 60

abbrev pub jwks_max_force_refresh_failures : ℕ
jwks_max_force_refresh_failures = 5

pub record CachedJwks (Jwk : Type 0) : Type 0 where
  pub keys_by_kid : Map Jwk
  pub etag : Option String
  pub jwks_uri : String
  pub last_force_refresh : Option ℕ
  pub consecutive_force_refresh_failures : ℕ

unfoldable pub is_healthy : {Jwk : Type 0} → CachedJwks Jwk → Bool
is_healthy c = not (is_empty c.keys_by_kid)

-- `resp.headers().get(name).and_then(|v| v.to_str().ok())`
abbrev pub visible : Option (Option String) → Option String
visible none = none
visible (some v) = v

-- The cooldown of `force_refresh_jwks`; `now` is the instant at which `elapsed` is read.
unfoldable pub cooling : ℕ → Option ℕ → Bool
cooling now none = false
cooling now (some last) = ltb (now - last) jwks_force_refresh_cooldown

-- The checks that stand before the fetch.
unfoldable pub gate : {Jwk : Type 0} → ℕ → CachedJwks Jwk → Result (Unit {0}) ServiceError
gate now c =
    if cooling now c.last_force_refresh
    then err (jwks "force-refresh cooldown active")
    else if leb jwks_max_force_refresh_failures c.consecutive_force_refresh_failures
    then err (jwks "force-refresh circuit-breaker tripped")
    else ok tt

-- The attempt is recorded before the fetch.
unfoldable pub stamp : {Jwk : Type 0} → ℕ → CachedJwks Jwk → CachedJwks Jwk
stamp now c = record c { last_force_refresh = some now }

-- What `index_keys` collects, from the entries that are left and the map so far.
unfoldable pub index_from : {Jwk : Type 0} → (Jwk → Option String) → List Jwk → Map Jwk → Map Jwk
index_from key_id [] m = m
index_from key_id (key ∷ keys) m = elim (key_id key) [
  | none ↦ index_from key_id keys m
  | some kid ↦ index_from key_id keys (insert kid key m)
]

module _ (X : Crates) where
  open X use {Value, from_text, member, as_str, Jwk, key_id, jwk_set, status_text}

  unfoldable pub index_keys : List Jwk → Map Jwk
  unfolding index_from
  index_keys keys = index_from key_id keys []

  abbrev not_modified : ServiceError
  not_modified = jwks "JWKS not modified (should use cached)"

  -- What `fetch_jwks_with_etag` makes of a response.
  unfoldable pub read_jwks : Response → Result (List Jwk × Option String) ServiceError
  read_jwks resp =
      if resp.status == 304
      then err not_modified
      else if not (is_success resp.status)
      then err (jwks (concat "JWKS fetch returned status " (status_text resp.status)))
      else do
        body ← map_err (λ e. jwks (concat "JWKS parse failed: " e)) (jwk_set resp.body)
        ok (body, visible (resp.header "etag"))

  unfoldable pub fetch_jwks_with_etag :
      Client → String → Option String → Result (List Jwk × Option String) ServiceError
  unfolding read_jwks
  fetch_jwks_with_etag client uri etag = do
    resp ← map_err (λ e. jwks (concat "JWKS fetch failed: " e)) (client uri etag)
    read_jwks resp

  unfoldable pub fetch_jwks_uri_from_well_known : Client → String → Result String ServiceError
  fetch_jwks_uri_from_well_known client url = do
    resp ← map_err (λ e. other (concat "well-known fetch failed: " e)) (client url none)
    if not (is_success resp.status)
        then err (other (concat "well-known returned status " (status_text resp.status)))
        else do
          body ← map_err (λ e. other (concat "well-known parse failed: " e)) (from_text resp.body)
          ok_or (bind (member body "jwks_uri") as_str)
              (other "jwks_uri not found in well-known config")

  -- The cache with the keys of a response.
  abbrev loaded : List Jwk × Option String → CachedJwks Jwk → CachedJwks Jwk
  loaded (keys, etag) c = record c { keys_by_kid = index_keys keys; etag = etag }

  abbrev pub refreshed :
      Result (List Jwk × Option String) ServiceError
      → CachedJwks Jwk
      → Result (Unit {0}) ServiceError × CachedJwks Jwk
  refreshed (ok found) c = (ok tt, loaded found c)
  refreshed (err (jwks msg)) c =
      if contains_str msg "not modified" then (ok tt, c) else (err (jwks msg), c)
  refreshed (err e) c = (err e, c)

  -- `refresh_jwks`: the refresh in the background, which keeps the cache where it fails.
  unfoldable pub refresh_jwks :
      Client → CachedJwks Jwk → Result (Unit {0}) ServiceError × CachedJwks Jwk
  refresh_jwks client c = refreshed (fetch_jwks_with_etag client c.jwks_uri c.etag) c

  -- What the result of the fetch does to the cache.
  unfoldable pub settle :
      Result (List Jwk × Option String) ServiceError
      → CachedJwks Jwk
      → Result (Unit {0}) ServiceError × CachedJwks Jwk
  settle (ok found) c = (ok tt, record (loaded found c) { consecutive_force_refresh_failures = 0 })
  settle (err e) c = (
    err e,
    record c { consecutive_force_refresh_failures = c.consecutive_force_refresh_failures + 1 },
  )

  abbrev pub after_gate :
      Result (Unit {0}) ServiceError
      → Client
      → ℕ
      → String
      → CachedJwks Jwk
      → Result (Unit {0}) ServiceError × CachedJwks Jwk
  after_gate (err e) client mark uri c = (err e, c)
  after_gate (ok _) client mark uri c = settle (fetch_jwks_with_etag client uri none) (stamp mark c)

  -- `force_refresh_jwks`, where no other task runs between its locks: the check at the instant
  -- `now`, the stamp at the instant `mark`.
  unfoldable pub force_refresh_jwks :
      Client → ℕ → ℕ → String → CachedJwks Jwk → Result (Unit {0}) ServiceError × CachedJwks Jwk
  force_refresh_jwks client now mark uri c = after_gate (gate now c) client mark uri c
