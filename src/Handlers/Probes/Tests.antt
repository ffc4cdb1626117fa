-- ===== src/Handlers/Probes/Tests.antt =====
-- The health of the service, at an input.
use jwt_exchange.Prelude.{String, none, [], ◌∷◌}
use jwt_exchange.Auth.Jwks.{CachedJwks}

abbrev cache : CachedJwks String
cache = record {
  keys_by_kid = ("k1", "k1") ∷ [];
  etag = none;
  jwks_uri = "https://idp/keys";
  last_force_refresh = none;
  consecutive_force_refresh_failures = 0;
}
