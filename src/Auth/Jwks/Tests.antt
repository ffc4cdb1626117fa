-- ===== src/Auth/Jwks/Tests.antt =====
-- Runs of the refreshes, and the theorems at inputs.
use jwt_exchange.Prelude.{ℕ, String, ◌≡◌, refl, none, some, List, [], ◌∷◌, ◌++◌, zero, suc}
use jwt_exchange.Result.{Result, ok, err}
use jwt_exchange.Error.{ServiceError, idp_unavailable}
use jwt_exchange.Crates.Sample.{sample, silent}
use jwt_exchange.Auth.Jwks.{
  CachedJwks, fetch_jwks_with_etag, force_refresh_jwks, cooling, settle, stamp, gate,
}
use jwt_exchange.Auth.Jwks.Discovery.{
  discover_loop, discover_fuel, first_answer, discover_loop_ends,
}

abbrev empty_cache : CachedJwks String
empty_cache = record {
  keys_by_kid = [];
  etag = none;
  jwks_uri = "https://idp/keys";
  last_force_refresh = none;
  consecutive_force_refresh_failures = 0;
}

abbrev stamped : CachedJwks String
stamped = record empty_cache {
  last_force_refresh = some 1000;
  consecutive_force_refresh_failures = 1;
}

abbrev tripped : CachedJwks String
tripped = record empty_cache { consecutive_force_refresh_failures = 5 }

forced_runs : (force_refresh_jwks sample silent 900 1000 "https://idp/keys" empty_cache).1 ≡ stamped
unfolding force_refresh_jwks settle stamp gate cooling fetch_jwks_with_etag
forced_runs = refl

-- The provider answers at the third attempt.
abbrev third : ℕ → Result String ServiceError
third n = elim n [
  | zero ↦ err idp_unavailable
  | suc k ↦ elim k [
    | zero ↦ err idp_unavailable
    | suc j ↦ elim j [ zero ↦ err idp_unavailable | suc i ↦ ok "https://idp/keys" ]
  ]
]

discovered : discover_loop discover_fuel third 0 1 [] ≡ some (ok "https://idp/keys", 2 ∷ 1 ∷ [])
unfolding discover_loop
discovered = refl

discover_loop_ends_example :
    (slept : List ℕ) × (discover_loop discover_fuel third 0 1 []
      ≡ some (first_answer 5 1 third, slept))
    × ((earlier : List ℕ) × (earlier ++ slept ≡ 8 ∷ 4 ∷ 2 ∷ 1 ∷ []))
discover_loop_ends_example = discover_loop_ends third
