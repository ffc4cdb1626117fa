-- ===== src/Auth/Jwks/Interleaved/Tests.antt =====
-- Refreshes of src/auth/jwks.rs that interleave, and the theorems at them.
use jwt_exchange.Prelude.{ℕ, ◌+◌, ◌≤◌, String, ◌≡◌, ◌≢◌, refl, none, some, [], ◌∷◌, arith, length}
use jwt_exchange.Result.{ok}
use jwt_exchange.Crates.Sample.{sample, answering}
use jwt_exchange.Auth.Jwks.{CachedJwks, gate, stamp, cooling}
use jwt_exchange.Auth.Jwks.Interleaved.{System, attempt, result, read, Reach, here, next, settled}
use jwt_exchange.Auth.Jwks.Interleaved.Guards.{
  window_begun, breaker_stays_open, idle, cooldown_raced,
}
use jwt_exchange.Auth.Jwks.Interleaved.Sources.{loaded_by, reached-loaded_by}

abbrev empty_cache : CachedJwks String
empty_cache = record {
  keys_by_kid = [];
  etag = none;
  jwks_uri = "https://idp/keys";
  last_force_refresh = none;
  consecutive_force_refresh_failures = 0;
}

-- One refresh waits for the network since the instant 1000, and another has passed the checks.
abbrev two : System String
two = record {
  cache = record empty_cache { last_force_refresh = some 1000 };
  passed = "https://idp/keys" ∷ [];
  waiting = "https://idp/keys" ∷ [];
  background = [];
  begun = 1;
  answered = [];
}

-- The other begins its request, and the first one ends.
abbrev both : System String
both = settled sample answering "https://idp/keys" ("https://idp/keys" ∷ []) (record two {
  cache = stamp 2000 two.cache;
  passed = [];
  waiting = "https://idp/keys" ∷ "https://idp/keys" ∷ [];
  begun = 1 + 1;
})

reached : Reach sample 1000 60000001000 two both
reached = next (next here (attempt two 2000 "https://idp/keys" [] [] (omega arith) refl)) (
    result
      (record two {
        cache = stamp 2000 two.cache;
        passed = [];
        waiting = "https://idp/keys" ∷ "https://idp/keys" ∷ [];
        begun = 1 + 1;
      })
      answering "https://idp/keys" [] ("https://idp/keys" ∷ []) refl)

window_begun_example : both.begun ≤ two.begun + length two.passed
window_begun_example = window_begun sample 1000 60000001000 two both refl (omega arith) reached

reached-loaded_by_example :
    ((both.cache.keys_by_kid, both.cache.etag) ≡ loaded_by sample two.cache both.answered)
    × (both.cache.jwks_uri ≡ two.cache.jwks_uri)
reached-loaded_by_example = reached-loaded_by sample two both refl reached

abbrev tripped : System String
tripped = idle sample (record empty_cache { consecutive_force_refresh_failures = 5 })

abbrev reading : System String
reading = record tripped { background = ("https://idp/keys", none) ∷ [] }

breaker_stays_open_example :
    (reading.begun ≡ tripped.begun) × ((now : ℕ) → gate now reading.cache ≢ ok tt)
breaker_stays_open_example =
    breaker_stays_open sample 0 0 tripped reading (omega arith) refl refl (next here (read tripped))

cooldown_raced_example :
    (t : System String) × Reach sample 0 1000 (idle sample empty_cache) t × (t.begun ≡ 3)
unfolding gate cooling
cooldown_raced_example =
    cooldown_raced sample 0 1000 900 950 "https://idp/keys" empty_cache 3 (omega arith)
      (omega arith) refl
