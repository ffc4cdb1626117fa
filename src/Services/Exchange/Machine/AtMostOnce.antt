-- ===== src/Services/Exchange/Machine/AtMostOnce.antt =====
-- How many tokens one token is exchanged for (src/services/token_service.rs), when whole exchanges run
-- at the same time.
use mathlib.Core.Path.{subst}
use jwt_exchange.Prelude.{
  ℕ, ◌≤◌, String, ◌≡◌, refl, sym, Bool, true, false, not, ◌&&◌, Option, List, arith, eq_refl,
}
use jwt_exchange.Prelude.Int.{ℤ, ◌≤ℤ◌, ltb_ℤ}
use jwt_exchange.Result.{ok}
use jwt_exchange.Crates.{Crates, InboundClaims, Validation}
use jwt_exchange.Config.{AppConfig}
use jwt_exchange.Db.Replay.{has_jti, groups_int}
use jwt_exchange.Db.Replay.Table.{KeysUnique, count}
use jwt_exchange.Db.Replay.Interleaved as Db
use jwt_exchange.Db.Replay.Interleaved.{row, lasting, strict_Inv_bound, key_Inv_bound, start-Inv}
use jwt_exchange.Services.Mint.{has_groups, replay_id_of, expiry_of}
use jwt_exchange.Services.Exchange.{Shared}
use jwt_exchange.Services.Exchange.Machine.Tasks.{System, Reach, start}
use jwt_exchange.Services.Exchange.Machine.Keys as Keys
use jwt_exchange.Services.Exchange.Machine.Weights.{stored, exchanged}
use jwt_exchange.Services.Exchange.Machine.Counted.{at, Reach-Inv}

-- The request asks for groups, or does not.
abbrev pub grouped : Bool → Option (List String) → Bool
grouped true requested = has_groups requested
grouped false requested = not (has_groups requested)

module _ (X : Crates) (config : AppConfig) (horizon : ℤ) (raw : String) (c : InboundClaims X.Value)
    (late : horizon ≤ℤ expiry_of X c)
    (claims_of : (now : ℤ) (k : X.DecodingKey) (v : Validation) (d : InboundClaims X.Value)
      → X.decode now raw k v ≡ ok d
      → d ≡ c) where
  any_counts :
      (g : ℕ)
      → (has_jti (replay_id_of X raw c) (row (replay_id_of X raw c) g (expiry_of X c))
          && not (ltb_ℤ (expiry_of X c) horizon))
        ≡ true
  any_counts g = ground (arith, eq_refl (replay_id_of X raw c))

  grouped_counts :
      (g : Bool) (requested : Option (List String))
      → grouped g requested ≡ true
      → lasting horizon
          (replay_id_of X raw c)
          (groups_int g)
          (row (replay_id_of X raw c) (stored true requested) (expiry_of X c))
        ≡ true
  grouped_counts true requested h = rw h (ground (arith, eq_refl (replay_id_of X raw c)))
  grouped_counts false requested h = ground (arith, eq_refl (replay_id_of X raw c))

  -- In the strict mode, however whole exchanges, refreshes and purges interleave, and whatever their
  -- networks, clocks and faults do, one token is exchanged for at most one, if its claims are fixed,
  -- the table's keys are unique at the start, and no purge's clock passes its expiry.
  pub exchanged_at_most_once :
      (shared : Shared X.Jwk) (s : System X)
      → config.allow_replay ≡ false
      → KeysUnique shared.used
      → Reach X config horizon (start X shared) s
      → exchanged X raw (λ requested. true) s.tasks ≤ 1
  unfolding exchanged count
  exchanged_at_most_once shared s mode u reach =
      let v =
        Reach-Inv X config horizon shared.cache raw c claims_of (λ requested. true)
          (λ r. has_jti (replay_id_of X raw c) r && not (ltb_ℤ r.exp horizon))
          (λ requested _. any_counts (stored config.allow_replay requested)) reach
          (record {
            known = Keys.start-Inv X config shared.cache shared refl;
            kept = start-Inv config.allow_replay horizon shared.used u;
            bounded = omega arith;
          }) in
      omega (
        arith,
        v.bounded,
        strict_Inv_bound horizon (at s.shared.used s.accepted) (replay_id_of X raw c)
            (subst (λ a. Db.Inv a horizon (at s.shared.used s.accepted)) mode v.kept),
      )

  -- With `allow_replay`, however whole exchanges, refreshes and purges interleave, and whatever their
  -- networks, clocks and faults do, one token is exchanged for at most one token with groups and for at
  -- most one without, if its claims are fixed, the table's keys are unique at the start, and no purge's
  -- clock passes its expiry.
  pub exchanged_per_groups :
      (shared : Shared X.Jwk) (s : System X) (g : Bool)
      → config.allow_replay ≡ true
      → KeysUnique shared.used
      → Reach X config horizon (start X shared) s
      → exchanged X raw (grouped g) s.tasks ≤ 1
  unfolding exchanged count
  exchanged_per_groups shared s g mode u reach =
      let v =
        Reach-Inv X config horizon shared.cache raw c claims_of (grouped g)
          (lasting horizon (replay_id_of X raw c) (groups_int g))
          (λ requested h.
            subst
              (λ a.
                lasting horizon (replay_id_of X raw c) (groups_int g)
                  (row (replay_id_of X raw c) (stored a requested) (expiry_of X c))
                ≡ true)
              (sym mode) (grouped_counts g requested h))
          reach
          (record {
            known = Keys.start-Inv X config shared.cache shared refl;
            kept = start-Inv config.allow_replay horizon shared.used u;
            bounded = omega arith;
          }) in
      omega (
        arith,
        v.bounded,
        key_Inv_bound config.allow_replay horizon (at s.shared.used s.accepted)
            (replay_id_of X raw c) (groups_int g) v.kept,
      )
