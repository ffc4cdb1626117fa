-- ===== src/Handlers/Probes/Status.antt =====
-- When the service reports itself healthy.
use jwt_exchange.Prelude.{ℕ, ◌≡◌, ◌≢◌, ◌↔◌, Bool, true, false, [], ◌⊎◌}
use jwt_exchange.Auth.Jwks.{CachedJwks, is_healthy}
use jwt_exchange.Handlers.Probes.{report, health}

-- What the answer says of a cache of keys and a database.
abbrev pub HealthOutcome : {Jwk : Type 0} → CachedJwks Jwk → Bool → ℕ → Type 0
HealthOutcome cache db_healthy uptime =
    ((cache.keys_by_kid ≢ [])
      × (db_healthy ≡ true)
      × ((health cache db_healthy uptime).status ≡ 200)
      × ((report (is_healthy cache) db_healthy uptime).status ≡ "healthy"))
    ⊎ (((cache.keys_by_kid ≡ []) ⊎ (db_healthy ≡ false))
        × ((health cache db_healthy uptime).status ≡ 503)
        × ((report (is_healthy cache) db_healthy uptime).status ≡ "unhealthy")
        × ((cache.keys_by_kid ≡ [])
            ↔ ((report (is_healthy cache) db_healthy uptime).checks.jwks ≡ "error"))
        × ((db_healthy ≡ false)
            ↔ ((report (is_healthy cache) db_healthy uptime).checks.database ≡ "error")))
