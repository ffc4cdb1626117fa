-- ===== src/Services/Exchange/Failures.antt =====
-- Which failures an exchange answers with, and what a refusal for the groups costs.
use jwt_exchange.Prelude.{
  String, len, ◌≡◌, refl, ap, ◌∙◌, Bool, true, false, Option, none, some, List, [], ◌∷◌, ℕ, ltb,
  Bool-cases, Option-cases, inl, inr, ◌==◌, not,
}
use mathlib.Core.Path.{subst}
use jwt_exchange.Result.{Result, ok, err, map_err, ok_or, >>=-of-err}
use jwt_exchange.Task.{continue-ind, continue-of-ok}
use jwt_exchange.Error.{ServiceError, malformed_token, jwks, other}
use jwt_exchange.Maps.{lookup}
use jwt_exchange.Str.{split}
use jwt_exchange.Http.{is_success}
use jwt_exchange.Crates.{Crates, Client, Response, InboundClaims}
use jwt_exchange.Config.{AppConfig}
use jwt_exchange.Auth.Jwks.{
  CachedJwks, cooling, gate, read_jwks, fetch_jwks_with_etag, settle, stamp, force_refresh_jwks,
  after_gate,
}
use jwt_exchange.Db.Replay.{Table, check_and_record_jti}
use jwt_exchange.Services.Base64.{base64url_decode}
use jwt_exchange.Services.Kid.{kid_of_header, kid_of_parts, extract_kid}
use jwt_exchange.Services.Groups.{filter_groups}
use jwt_exchange.Services.Mint.{
  Moment, has_groups, validate, of_kind, replay_id_of, expiry_of, mint,
}
use jwt_exchange.Services.Exchange.{
  Shared, key_of, key_after_refresh, find_key, check_replay, unless_replayed, redeem,
  exchange_token,
}
use jwt_exchange.Services.Exchange.Fits.{
  is_exchange_failure, Fits, ok-Fits, err-Fits, passed-Fits, map_err-Fits, ok_or-Fits, >>=-Fits,
  if-Fits, of_kind-Fits, filter_groups-Fits,
}

module _ (X : Crates) where
  open X use {Value, Jwk, DecodingKey, EncodingKey, jwk_set, from_slice, decode, encode}

  kid_of_header-Fits : (h : String) → Fits (kid_of_header X h)
  unfolding kid_of_header
  kid_of_header-Fits h =
      >>=-Fits (ok_or (base64url_decode h) malformed_token) _ (ok_or-Fits _ malformed_token refl)
        (λ bytes.
          >>=-Fits (map_err (λ _. malformed_token) (from_slice bytes)) _
            (map_err-Fits _ (from_slice bytes) (λ _. refl))
            (λ v. ok_or-Fits _ malformed_token refl))

  extract_kid-Fits : (token : String) → Fits (extract_kid X token)
  unfolding extract_kid
  extract_kid-Fits token = parts (split b'.' token)
    where
      parts : (ps : List String) → Fits (kid_of_parts X ps)
      parts [] = err-Fits _ malformed_token refl
      parts (h ∷ []) = err-Fits _ malformed_token refl
      parts (h ∷ p ∷ []) = err-Fits _ malformed_token refl
      parts (h ∷ p ∷ s ∷ []) = kid_of_header-Fits h
      parts (h ∷ p ∷ s ∷ x ∷ xs) = err-Fits _ malformed_token refl

  read_jwks-Fits : (resp : Response) → Fits (read_jwks X resp)
  unfolding read_jwks
  read_jwks-Fits resp = if-Fits (resp.status == 304) _ _ (err-Fits _ (jwks _) refl) (
      if-Fits (not (is_success resp.status)) _ _ (err-Fits _ (jwks _) refl) (
        >>=-Fits (map_err _ (jwk_set resp.body)) _ (map_err-Fits _ (jwk_set resp.body) (λ _. refl))
          (λ found. ok-Fits _)))

  fetch-Fits :
      (client : Client) (uri : String) (etag : Option String)
      → Fits (fetch_jwks_with_etag X client uri etag)
  unfolding fetch_jwks_with_etag
  fetch-Fits client uri etag =
      >>=-Fits (map_err _ (client uri etag)) (read_jwks X)
        (map_err-Fits _ (client uri etag) (λ _. refl)) read_jwks-Fits

  gate-Fits : (now : ℕ) (c : CachedJwks Jwk) → Fits (gate now c)
  unfolding gate
  gate-Fits now c =
      if-Fits (cooling now c.last_force_refresh) _ _ (err-Fits _ (jwks _) refl)
        (if-Fits _ _ _ (err-Fits _ (jwks _) refl) (ok-Fits tt))

  settle-Fits :
      (r : Result (List Jwk × Option String) ServiceError) (c : CachedJwks Jwk)
      → Fits r
      → Fits (settle X r c).0
  unfolding settle
  settle-Fits (ok found) c h = ok-Fits tt
  settle-Fits (err e) c h = passed-Fits _ (err e) e refl h

  force_refresh-Fits :
      (client : Client) (now mark : ℕ) (uri : String) (c : CachedJwks Jwk)
      → Fits (force_refresh_jwks X client now mark uri c).0
  unfolding force_refresh_jwks
  force_refresh-Fits client now mark uri c = after (gate now c) (gate-Fits now c)
    where
      after :
          (r : Result (Unit {0}) ServiceError) → Fits r → Fits (after_gate X r client mark uri c).0
      after (err e) h = passed-Fits _ (err e) e refl h
      after (ok _) h =
          settle-Fits (fetch_jwks_with_etag X client uri none) (stamp mark c)
            (fetch-Fits client uri none)

  key_of-Fits : (kid : String) (jwk : Jwk) → Fits (key_of X kid jwk)
  unfolding key_of
  key_of-Fits kid jwk = map_err-Fits _ (X.from_jwk jwk) (λ _. refl)

  after_refresh-Fits :
      (kid : String) (r : Result (Unit {0}) ServiceError) (c : CachedJwks Jwk) (s : Shared Jwk)
      → Fits r
      → Fits (key_after_refresh X kid (r, c) s).0
  after_refresh-Fits kid (err e) c s h = passed-Fits DecodingKey (err e) e refl h
  after_refresh-Fits kid (ok _) c s h = elim (Option-cases (lookup kid c.keys_by_kid)) [
    | inl e ↦ rw (e, key_after_refresh) (err-Fits _ ServiceError.unknown_kid refl)
    | inr (jwk, e) ↦ rw (e, key_after_refresh) (key_of-Fits kid jwk)
  ]

  find_key-Fits : (m : Moment) (kid : String) (s : Shared Jwk) → Fits (find_key X m kid s).0
  unfolding find_key
  find_key-Fits m kid s = elim (Option-cases (lookup kid s.cache.keys_by_kid)) [
    | inl e ↦
        rw (e, find_key)
          (after_refresh-Fits kid
            (force_refresh_jwks X m.client m.cooldown_at m.stamped_at s.cache.jwks_uri s.cache).0
            (force_refresh_jwks X m.client m.cooldown_at m.stamped_at s.cache.jwks_uri s.cache).1 s
            (force_refresh-Fits m.client m.cooldown_at m.stamped_at s.cache.jwks_uri s.cache))
    | inr (jwk, e) ↦ rw (e, find_key) (key_of-Fits kid jwk)
  ]

  mint-Fits :
      (config : AppConfig) (m : Moment) (key : EncodingKey) (claims : InboundClaims Value)
      (sub replay_id : String) (requested : Option (List String))
      → Fits (mint X config m key claims sub replay_id requested)
  unfolding mint
  mint-Fits config m key claims sub replay_id requested =
      >>=-Fits (filter_groups requested _ _ _) _ (filter_groups-Fits requested _ _ _) (λ groups.
        >>=-Fits (map_err _ (encode _ key)) _ (map_err-Fits _ (encode _ key) (λ _. refl))
          (λ _. ok-Fits _))

  redeem-Fits :
      (config : AppConfig) (m : Moment) (key : EncodingKey) (raw_token : String)
      (claims : InboundClaims Value) (requested : Option (List String)) (t : Shared Jwk)
      → Fits (redeem X config m key raw_token claims requested t).0
  unfolding redeem check_replay
  redeem-Fits config m key raw_token claims requested t =
      let id = replay_id_of X raw_token claims in
      let call =
        check_and_record_jti m.faults id (expiry_of X claims) config.allow_replay
          (has_groups requested) t.used in
      continue-ind (λ z. Fits z.0) (ok_or claims.sub malformed_token, t) _
        (λ sub _.
          continue-ind (λ z. Fits z.0)
            (check_replay X config m id (expiry_of X claims) (has_groups requested) t) _
            (λ used _. after used sub)
            (λ e h. passed-Fits _ _ e h (map_err-Fits other call.0 (λ _. refl))))
        (λ e h. passed-Fits _ _ e h (ok_or-Fits claims.sub malformed_token refl))
    where
      after :
          (used : Bool) (sub : String)
          → Fits (
              unless_replayed X config m key claims sub
                (replay_id_of X raw_token claims)
                requested
                used)
      after true sub = err-Fits _ _ refl
      after false sub =
          mint-Fits config m key claims sub (replay_id_of X raw_token claims) requested

  exchange-Fits :
      (config : AppConfig) (m : Moment) (key : EncodingKey) (raw_token : String)
      (requested : Option (List String)) (s : Shared Jwk)
      → Fits (exchange_token X config m key raw_token requested s).0
  unfolding exchange_token validate
  exchange-Fits config m key raw_token requested s =
      elim (Bool-cases (ltb config.max_token_size (len raw_token))) [
        | inl large ↦ rw large (err-Fits _ malformed_token refl)
        | inr fits ↦ rw fits (
            continue-ind (λ z. Fits z.0) (extract_kid X raw_token, s) _
              (λ kid _.
                continue-ind (λ z. Fits z.0) (find_key X m kid s) _
                  (λ dk _.
                    continue-ind (λ z. Fits z.0)
                      (validate X config m raw_token dk, (find_key X m kid s).1) _
                      (λ claims _.
                        redeem-Fits config m key raw_token claims requested (find_key X m kid s).1)
                      (λ e h.
                        passed-Fits _ _ e h (map_err-Fits of_kind (decode _ _ _ _) of_kind-Fits)))
                  (λ e h. passed-Fits _ _ e h (find_key-Fits m kid s)))
              (λ e h. passed-Fits _ _ e h (extract_kid-Fits raw_token)))
      ]

  -- An exchange that fails answers with one of the failures of the token, of the replay check, of the
  -- key set, of the signing or of the database; it never answers that the provider is unavailable,
  -- whatever the network does.
  pub exchange_token-is_exchange_failure :
      (config : AppConfig) (m : Moment) (key : EncodingKey) (raw_token : String)
      (requested : Option (List String)) (s : Shared Jwk) (e : ServiceError)
      → (exchange_token X config m key raw_token requested s).0 ≡ err e
      → is_exchange_failure e ≡ true
  exchange_token-is_exchange_failure config m key raw_token requested s e h =
      unfold Fits in subst Fits h (exchange-Fits config m key raw_token requested s)

  -- A valid token whose identifier is free is spent although its groups are refused: the identifier
  -- stays recorded, as it would for a token that is minted, and the answer is the refusal.
  pub redeem_refused_groups :
      (config : AppConfig) (m : Moment) (key : EncodingKey) (raw_token sub : String)
      (claims : InboundClaims Value) (requested : Option (List String)) (s : Shared Jwk) (t : Table)
      (e : ServiceError)
      → claims.sub ≡ some sub
      → check_and_record_jti m.faults
          (replay_id_of X raw_token claims)
          (expiry_of X claims)
          config.allow_replay
          (has_groups requested)
          s.used
        ≡ (ok false, t)
      → filter_groups requested config.groups_whitelist config.max_groups_count
          config.max_group_name_length
        ≡ err e
      → redeem X config m key raw_token claims requested s ≡ (err e, record s { used = t })
  unfolding redeem check_replay mint
  redeem_refused_groups config m key raw_token sub claims requested s t e h c f =
      continue-of-ok (ok_or claims.sub malformed_token, s) _
        (ap (λ o. (ok_or o malformed_token, s)) h)
      ∙ continue-of-ok
          (check_replay X config m (replay_id_of X raw_token claims) (expiry_of X claims)
            (has_groups requested) s)
          _ (ap (λ z. (map_err other z.0, record s { used = z.1 })) c)
      ∙ ap (λ r. (r, record s { used = t })) (>>=-of-err (filter_groups requested _ _ _) _ f)
