-- ===== src/Auth/Jwks/History.antt =====
-- Refreshes one after another: the rate limit of the forced ones, and the circuit-breaker. A tick of
-- `start_jwks_refresh_task` is one refresh in the background, whose error is logged.
use jwt_exchange.Prelude.{
  ℕ, ◌+◌, ◌≤◌, ◌<◌, String, ◌≡◌, refl, true, some, List, [], ◌∷◌, All, arith, if◌then◌else◌, inl,
  inr,
}
use jwt_exchange.Result.{err}
use jwt_exchange.Error.{ServiceError, jwks}
use jwt_exchange.Crates.{Crates, Client}
use jwt_exchange.Auth.Jwks.{CachedJwks, refresh_jwks, cooling, force_refresh_jwks}
use jwt_exchange.Auth.Jwks.Refresh.{refresh_jwks_cases, force_refresh_jwks_cases}

-- A refresh by the background task, or one that an exchange forces, with the network of its time.
pub data Event : Type 0 where
  background : Client → Event
  forced : Client → (now mark : ℕ) → String → Event

module _ (X : Crates) where
  open X use {Jwk}

  unfoldable pub step : Event → CachedJwks Jwk → CachedJwks Jwk
  step (background client) c = (refresh_jwks X client c).1
  step (forced client now mark uri) c = (force_refresh_jwks X client now mark uri c).1

  unfoldable pub run : List Event → CachedJwks Jwk → CachedJwks Jwk
  run [] c = c
  run (e ∷ rest) c = run rest (step e c)

  -- A background refresh does not touch what guards the forced ones.
  refresh_jwks_guards :
      (client : Client) (c : CachedJwks Jwk)
      → ((refresh_jwks X client c).1.last_force_refresh ≡ c.last_force_refresh)
        × ((refresh_jwks X client c).1.consecutive_force_refresh_failures
            ≡ c.consecutive_force_refresh_failures)
  refresh_jwks_guards client c = elim (refresh_jwks_cases X client c) [
    | inl (found, e, r) ↦ rw r (refl, refl)
    | inr same ↦ rw same (refl, refl)
  ]

  -- The error of a forced refresh that is refused with five failures or more.
  abbrev refusal : ℕ → CachedJwks Jwk → ServiceError
  refusal now c =
      if cooling now c.last_force_refresh
      then jwks "force-refresh cooldown active"
      else jwks "force-refresh circuit-breaker tripped"

  forced_tripped :
      (client : Client) (now mark : ℕ) (uri : String) (c : CachedJwks Jwk)
      → 5 ≤ c.consecutive_force_refresh_failures
      → force_refresh_jwks X client now mark uri c ≡ (err (refusal now c), c)
  forced_tripped client now mark uri c h = elim (force_refresh_jwks_cases X client now mark uri c) [
    | inl (cool, r) ↦ rw cool r
    | inr (inl (warm, _, r)) ↦ rw warm r
    | inr (inr (inl (_, lt, _))) ↦ absurd (omega arith)
    | inr (inr (inr (_, lt, _))) ↦ absurd (omega arith)
  ]

  tripped-run :
      (events : List Event) (c : CachedJwks Jwk)
      → 5 ≤ c.consecutive_force_refresh_failures
      → 5 ≤ (run events c).consecutive_force_refresh_failures
  unfolding run step
  tripped-run [] c h = h
  tripped-run (background client ∷ rest) c h =
      tripped-run rest (refresh_jwks X client c).1 (omega (arith, (refresh_jwks_guards client c).1))
  tripped-run (forced client now mark uri ∷ rest) c h =
      tripped-run rest (force_refresh_jwks X client now mark uri c).1
        (rw (forced_tripped client now mark uri c h) h)

  -- Once five forced refreshes in a row have failed, no forced refresh ever succeeds or reaches the
  -- network again, however long it waits and whatever the background refreshes fetch in between:
  -- each is an error that does not depend on the network, and leaves the cache as it finds it.
  pub breaker_never_closes :
      (events : List Event) (c : CachedJwks Jwk) (client : Client) (now mark : ℕ) (uri : String)
      → 5 ≤ c.consecutive_force_refresh_failures
      → force_refresh_jwks X client now mark uri (run events c)
        ≡ (err (refusal now (run events c)), run events c)
  breaker_never_closes events c client now mark uri h =
      forced_tripped client now mark uri (run events c) (tripped-run events c h)

  cooling-lt : (now last : ℕ) → now < last + 60000000000 → cooling now (some last) ≡ true
  unfolding cooling
  cooling-lt now last h = ground arith

  -- In the cooldown a forced refresh is an error and changes nothing.
  forced_cooling :
      (client : Client) (now mark : ℕ) (uri : String) (c : CachedJwks Jwk)
      → cooling now c.last_force_refresh ≡ true
      → force_refresh_jwks X client now mark uri c ≡ (err (jwks "force-refresh cooldown active"), c)
  forced_cooling client now mark uri c h = elim (force_refresh_jwks_cases X client now mark uri c) [
    | inl (_, r) ↦ r
    | inr (inl (warm, _, _)) ↦ cc
    | inr (inr (inl (warm, _, _))) ↦ cc
    | inr (inr (inr (warm, _, _))) ↦ cc
  ]

  -- No forced refresh of a history begins sixty seconds after an instant, or later.
  abbrev Within : ℕ → Event → Type 0
  Within last (background client) = Unit
  Within last (forced client now mark uri) = now < last + 60000000000

  cooling-run :
      (last : ℕ) (events : List Event) (c : CachedJwks Jwk)
      → c.last_force_refresh ≡ some last
      → All (Within last) events
      → (run events c).last_force_refresh ≡ some last
  unfolding run step
  cooling-run last [] c e h = e
  cooling-run last (background client ∷ rest) c e (_, h) =
      cooling-run last rest (refresh_jwks X client c).1 (cc ((refresh_jwks_guards client c).0)) h
  cooling-run last (forced client now mark uri ∷ rest) c e (lt, h) =
      cooling-run last rest (force_refresh_jwks X client now mark uri c).1
        (rw (forced_cooling client now mark uri c (rw e (cooling-lt now last lt))) e) h

  -- A forced refresh that begins less than sixty seconds after the stamp of another, with any
  -- refreshes of that time between the two, is refused by the cooldown, and changes nothing.
  pub forced_rate_limited :
      (last : ℕ) (events : List Event) (c : CachedJwks Jwk) (client : Client) (now mark : ℕ)
      (uri : String)
      → c.last_force_refresh ≡ some last
      → All (Within last) events
      → now < last + 60000000000
      → force_refresh_jwks X client now mark uri (run events c)
        ≡ (err (jwks "force-refresh cooldown active"), run events c)
  forced_rate_limited last events c client now mark uri e h lt =
      forced_cooling client now mark uri (run events c)
        (rw (cooling-run last events c e h) (cooling-lt now last lt))
