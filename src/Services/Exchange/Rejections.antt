-- ===== src/Services/Exchange/Rejections.antt =====
-- What `exchange_token` of src/services/token_service.rs leaves behind, also where it fails.
use jwt_exchange.Prelude.{
  String, len, ◌≡◌, refl, sym, ap, ◌∙◌, Option, none, List, ltb, Bool-cases, Option-cases, ◌⊎◌, inl,
  inr,
}
use mathlib.Core.Path.{subst}
use jwt_exchange.Result.{Result, ok, err, ok_or, map_err-eq-ok}
use jwt_exchange.Task.{lift, ◌>>=◌, continue-ind}
use jwt_exchange.Error.{ServiceError, malformed_token}
use jwt_exchange.Maps.{lookup}
use jwt_exchange.Crates.{Crates, InboundClaims}
use jwt_exchange.Config.{AppConfig}
use jwt_exchange.Auth.Jwks.{CachedJwks, force_refresh_jwks}
use jwt_exchange.Db.Replay.{Table, check_and_record_jti}
use jwt_exchange.Services.Kid.{extract_kid}
use jwt_exchange.Services.Mint.{
  Moment, TokenExchangeResult, has_groups, validate, validation_for, of_kind, replay_id_of,
  expiry_of,
}
use jwt_exchange.Services.Exchange.{
  Shared, key_after_refresh, find_key, check_replay, redeem, exchange_token,
}

module _ (X : Crates) where
  open X use {Value, Jwk, DecodingKey, EncodingKey, new_validation, decode}

  after_refresh_state :
      (kid : String) (r : Result (Unit {0}) ServiceError) (c : CachedJwks Jwk) (s : Shared Jwk)
      → (key_after_refresh X kid (r, c) s).1 ≡ record s { cache = c }
  after_refresh_state kid (err e) c s = refl
  after_refresh_state kid (ok _) c s = elim (Option-cases (lookup kid c.keys_by_kid)) [
    | inl e ↦ rw (e, key_after_refresh) refl
    | inr (jwk, e) ↦ rw (e, key_after_refresh) refl
  ]

  -- The search for a key keeps the state, or takes the cache of a forced refresh.
  find_key_state :
      (m : Moment) (kid : String) (s : Shared Jwk)
      → ((find_key X m kid s).1 ≡ s)
        ⊎ ((lookup kid s.cache.keys_by_kid ≡ none)
            × ((find_key X m kid s).1 ≡ record s {
              cache =
                  (force_refresh_jwks X m.client m.cooldown_at m.stamped_at s.cache.jwks_uri
                    s.cache).1;
            }))
  unfolding find_key
  find_key_state m kid s = elim (Option-cases (lookup kid s.cache.keys_by_kid)) [
    | inl e ↦
        let (r, c) =
          force_refresh_jwks X m.client m.cooldown_at m.stamped_at s.cache.jwks_uri s.cache in
        inr (e, rw (e, find_key) (after_refresh_state kid r c s))
    | inr (jwk, e) ↦ inl (rw (e, find_key) refl)
  ]

  find_key_table :
      (m : Moment) (kid : String) (s : Shared Jwk) → (find_key X m kid s).1.used ≡ s.used
  find_key_table m kid s = elim (find_key_state m kid s) [
    | inl e ↦ ap (λ (z : Shared Jwk). z.used) e
    | inr (_, e) ↦ ap (λ (z : Shared Jwk). z.used) e
  ]

  module _ (config : AppConfig) (m : Moment) (key : EncodingKey) (raw_token : String)
      (requested : Option (List String)) where
    -- The table after a valid token was recorded, or found.
    abbrev recorded : InboundClaims Value → Table → Table
    recorded claims t =
        (check_and_record_jti m.faults (replay_id_of X raw_token claims) (expiry_of X claims)
          config.allow_replay (has_groups requested) t).1

    redeem_state :
        (claims : InboundClaims Value) (t : Shared Jwk)
        → ((redeem X config m key raw_token claims requested t).1.cache ≡ t.cache)
          × (((redeem X config m key raw_token claims requested t).1.used ≡ t.used)
              ⊎ ((redeem X config m key raw_token claims requested t).1.used
                  ≡ recorded claims t.used))
    unfolding redeem check_replay
    redeem_state claims t =
        let id = replay_id_of X raw_token claims in
        let Q : Result TokenExchangeResult ServiceError × Shared Jwk → Type 0 = λ z.
          (z.1.cache ≡ t.cache) × ((z.1.used ≡ t.used) ⊎ (z.1.used ≡ recorded claims t.used)) in
        continue-ind Q (ok_or claims.sub malformed_token, t) _
          (λ sub _.
            continue-ind Q
              (check_replay X config m id (expiry_of X claims) (has_groups requested) t) _
              (λ used _. (refl, inr refl)) (λ e _. (refl, inr refl)))
          (λ e _. (refl, inl refl))

    -- What an exchange may have done with the cache of keys, when it ends in a state.
    abbrev pub CacheOwed : Shared Jwk → Shared Jwk → Type 0
    CacheOwed s s' =
        (s'.cache ≡ s.cache)
        ⊎ ((kid : String) × (extract_kid X raw_token ≡ ok kid)
            × (lookup kid s.cache.keys_by_kid ≡ none)
            × (s'.cache
                ≡ (force_refresh_jwks X m.client m.cooldown_at m.stamped_at s.cache.jwks_uri
                    s.cache).1))

    -- What an exchange may have done with the table of used identifiers, when it ends in a state.
    abbrev pub TableOwed : Shared Jwk → Shared Jwk → Type 0
    TableOwed s s' =
        (s'.used ≡ s.used)
        ⊎ ((dk : DecodingKey) × (claims : InboundClaims Value) × (decode m.validated_at raw_token dk
                (validation_for config new_validation)
              ≡ ok claims)
            × (s'.used ≡ recorded claims s.used))

    abbrev Owed : Shared Jwk → Shared Jwk → Type 0
    Owed s t = CacheOwed s t × TableOwed s t

    found :
        (s : Shared Jwk) (kid : String)
        → extract_kid X raw_token ≡ ok kid
        → CacheOwed s (find_key X m kid s).1
    found s kid k = elim (find_key_state m kid s) [
      | inl e ↦ inl (ap (λ (z : Shared Jwk). z.cache) e)
      | inr (l, e) ↦ inr (kid, k, l, ap (λ (z : Shared Jwk). z.cache) e)
    ]

    redeemed :
        (s t : Shared Jwk) (dk : DecodingKey) (claims : InboundClaims Value)
        → t.used ≡ s.used
        → CacheOwed s t
        → validate X config m raw_token dk ≡ ok claims
        → Owed s (redeem X config m key raw_token claims requested t).1
    unfolding validate
    redeemed s t dk claims u c v =
        let (same, change) = redeem_state claims t in
        let d =
          map_err-eq-ok of_kind
            (decode m.validated_at raw_token dk (validation_for config new_validation)) v in
        (
          subst (λ z. CacheOwed s (record t { cache = z })) (sym same) c,
          elim change [
            | inl e ↦ inl (e ∙ u)
            | inr e ↦ inr (dk, claims, d, e ∙ ap (recorded claims) u)
          ],
        )

    read :
        (s : Shared Jwk)
        → Owed s
            ((do
              kid ← lift (extract_kid X raw_token)
              decoding_key ← find_key X m kid
              claims ← lift (validate X config m raw_token decoding_key)
              redeem X config m key raw_token claims requested)
              s).1
    read s =
        continue-ind (λ z. Owed s z.1) (extract_kid X raw_token, s) _
          (λ kid k.
            continue-ind (λ z. Owed s z.1) (find_key X m kid s) _
              (λ dk f.
                continue-ind (λ z. Owed s z.1)
                  (validate X config m raw_token dk, (find_key X m kid s).1) _
                  (λ claims v.
                    redeemed s (find_key X m kid s).1 dk claims (find_key_table m kid s)
                      (found s kid k) v)
                  (λ e _. (found s kid k, inl (find_key_table m kid s))))
              (λ e _. (found s kid k, inl (find_key_table m kid s))))
          (λ e _. (inl refl, inl refl))

    -- However an exchange ends, also in an error, it leaves the cache of keys as it was, unless the
    -- token names a key that the cache does not hold: then the cache is the one that the forced
    -- refresh leaves. And it leaves the table of used identifiers as it was, unless the library has
    -- validated the token with a key: then the table is the one that recording its claims leaves.
    pub exchange_token_effects :
        (s : Shared Jwk)
        → CacheOwed s (exchange_token X config m key raw_token requested s).1
          × TableOwed s (exchange_token X config m key raw_token requested s).1
    unfolding exchange_token
    exchange_token_effects s = elim (Bool-cases (ltb config.max_token_size (len raw_token))) [
      | inl large ↦ rw large (inl refl, inl refl)
      | inr fits ↦ rw fits (read s)
    ]
