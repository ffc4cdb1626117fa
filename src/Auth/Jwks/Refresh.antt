-- ===== src/Auth/Jwks/Refresh.antt =====
-- What the refreshes do to the cache: on every answer of the network, and over a history of them.
use jwt_exchange.Prelude.{
  ℕ, ◌+◌, ◌≤◌, ◌<◌, String, ◌≡◌, refl, true, false, Option, none, some, List, arith, leb, ◌⊎◌, inl,
  inr, Bool-cases,
}
use jwt_exchange.Result.{Result, ok, err, Result-cases}
use jwt_exchange.Error.{ServiceError, jwks}
use jwt_exchange.Crates.{Crates, Client, Response}
use jwt_exchange.Str.{contains_str}
use jwt_exchange.Auth.Jwks.{
  CachedJwks, index_keys, fetch_jwks_with_etag, refreshed, refresh_jwks, cooling, gate, stamp,
  settle, force_refresh_jwks,
}

module _ {Jwk : Type 0} (now : ℕ) (c : CachedJwks Jwk) where
  gate-cooling :
      cooling now c.last_force_refresh ≡ true
      → gate now c ≡ err (jwks "force-refresh cooldown active")
  unfolding gate
  gate-cooling h = rw h

  gate-tripped :
      cooling now c.last_force_refresh ≡ false
      → leb 5 c.consecutive_force_refresh_failures ≡ true
      → gate now c ≡ err (jwks "force-refresh circuit-breaker tripped")
  unfolding gate
  gate-tripped h k = rw (h, k)

  gate-ok :
      cooling now c.last_force_refresh ≡ false
      → leb 5 c.consecutive_force_refresh_failures ≡ false
      → gate now c ≡ ok tt
  unfolding gate
  gate-ok h k = rw (h, k)

module _ (X : Crates) where
  open X use {Jwk}

  refreshed-err : (e : ServiceError) (c : CachedJwks Jwk) → (refreshed X (err e) c).1 ≡ c
  refreshed-err (jwks msg) c = elim (Bool-cases (contains_str msg "not modified")) [
    | inl said ↦ rw said
    | inr other ↦ rw other
  ]
  refreshed-err _ c = refl

  -- A refresh in the background either puts the keys and the tag of a response in the cache, which
  -- then has the rest as before, or leaves the cache as it was.
  pub refresh_jwks_cases :
      (client : Client) (c : CachedJwks Jwk)
      → ((found : List Jwk × Option String) × (fetch_jwks_with_etag X client c.jwks_uri c.etag
            ≡ ok found)
          × (refresh_jwks X client c
              ≡ (ok tt, record c { keys_by_kid = index_keys X found.0; etag = found.1 })))
        ⊎ ((refresh_jwks X client c).1 ≡ c)
  unfolding refresh_jwks
  refresh_jwks_cases client c = after (fetch_jwks_with_etag X client c.jwks_uri c.etag) refl
    where
      after :
          (r : Result (List Jwk × Option String) ServiceError)
          → fetch_jwks_with_etag X client c.jwks_uri c.etag ≡ r
          → ((found : List Jwk × Option String) × (fetch_jwks_with_etag X client c.jwks_uri c.etag
                ≡ ok found)
              × (refreshed X (fetch_jwks_with_etag X client c.jwks_uri c.etag) c
                  ≡ (ok tt, record c { keys_by_kid = index_keys X found.0; etag = found.1 })))
            ⊎ ((refreshed X (fetch_jwks_with_etag X client c.jwks_uri c.etag) c).1 ≡ c)
      after (ok found) e = inl (found, e, rw e)
      after (err x) e = inr (rw e (refreshed-err x c))

  -- Where the provider answers that nothing was modified, the refresh succeeds and keeps the cache.
  pub refresh_jwks-not_modified :
      (client : Client) (c : CachedJwks Jwk) (resp : Response)
      → client c.jwks_uri c.etag ≡ ok resp
      → resp.status ≡ 304
      → refresh_jwks X client c ≡ (ok tt, c)
  unfolding refresh_jwks fetch_jwks_with_etag contains_str
  refresh_jwks-not_modified client c resp e s = rw (e, s)

  -- What a forced refresh may have done.
  abbrev pub ForcedOutcome : Client → ℕ → ℕ → String → CachedJwks Jwk → Type 0
  ForcedOutcome client now mark uri c =
      ((cooling now c.last_force_refresh ≡ true)
        × (force_refresh_jwks X client now mark uri c
            ≡ (err (jwks "force-refresh cooldown active"), c)))
      ⊎ ((cooling now c.last_force_refresh ≡ false)
          × (5 ≤ c.consecutive_force_refresh_failures)
          × (force_refresh_jwks X client now mark uri c
              ≡ (err (jwks "force-refresh circuit-breaker tripped"), c)))
      ⊎ ((cooling now c.last_force_refresh ≡ false)
          × (c.consecutive_force_refresh_failures < 5)
          × ((found : List Jwk × Option String) × (fetch_jwks_with_etag X client uri none
                ≡ ok found)
              × (force_refresh_jwks X client now mark uri c ≡ (
                ok tt,
                record c {
                  keys_by_kid = index_keys X found.0;
                  etag = found.1;
                  last_force_refresh = some mark;
                  consecutive_force_refresh_failures = 0;
                },
              ))))
      ⊎ ((cooling now c.last_force_refresh ≡ false)
          × (c.consecutive_force_refresh_failures < 5)
          × ((e : ServiceError) × (fetch_jwks_with_etag X client uri none ≡ err e)
              × (force_refresh_jwks X client now mark uri c ≡ (
                err e,
                record c {
                  last_force_refresh = some mark;
                  consecutive_force_refresh_failures = c.consecutive_force_refresh_failures + 1;
                },
              ))))

  -- A forced refresh has four outcomes. In the cooldown, and then with five failures or more, it is
  -- an error that leaves the cache as it was, whatever the network would answer. Otherwise the
  -- attempt is stamped, and the fetch, which sends no tag, either replaces the keys and the tag and
  -- clears the failures, or adds one failure and keeps the keys.
  pub force_refresh_jwks_cases :
      (client : Client) (now mark : ℕ) (uri : String) (c : CachedJwks Jwk)
      → ForcedOutcome client now mark uri c
  unfolding force_refresh_jwks settle stamp
  force_refresh_jwks_cases client now mark uri c =
      elim (Bool-cases (cooling now c.last_force_refresh)) [
        | inl cool ↦ inl (cool, rw (gate-cooling now c cool))
        | inr warm ↦ elim (Bool-cases (leb 5 c.consecutive_force_refresh_failures)) [
          | inl tripped ↦ inr (inl (warm, ground arith, rw (gate-tripped now c warm tripped)))
          | inr closed ↦ elim (Result-cases (fetch_jwks_with_etag X client uri none)) [
            | inl (found, e) ↦ inr (
                inr (
                  inl (
                    warm,
                    ground arith,
                    (found, e, rw (gate-ok now c warm closed, e, settle, stamp)),
                  )))
            | inr (x, e) ↦ inr (
                inr (
                  inr
                    (warm, ground arith, (x, e, rw (gate-ok now c warm closed, e, settle, stamp)))))
          ]
        ]
      ]
