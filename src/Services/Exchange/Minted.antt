-- ===== src/Services/Exchange/Minted.antt =====
-- What stands behind a token that the exchange mints.
use mathlib.Core.Path.{subst, ap₂}
use jwt_exchange.Prelude.{
  ◌≤◌, String, len, ◌≡◌, refl, sym, ap, ◌∙◌, Bool, true, false, Option, some, List, arith, ltb,
  ltb→ge, Bool-cases, Option-cases, inl, inr,
}
use jwt_exchange.Result.{Result, ok, err, map_err, ok_or, >>=-eq-ok, map_err-eq-ok, ok_or-eq-ok}
use jwt_exchange.Task.{continue-eq-ok}
use jwt_exchange.Error.{ServiceError, malformed_token, other}
use jwt_exchange.Maps.{lookup}
use jwt_exchange.Crates.{Crates, InboundClaims}
use jwt_exchange.Config.{AppConfig}
use jwt_exchange.Auth.Jwks.{CachedJwks, force_refresh_jwks}
use jwt_exchange.Db.Replay.{check_and_record_jti}
use jwt_exchange.Services.Kid.{extract_kid}
use jwt_exchange.Services.Groups.{filter_groups}
use jwt_exchange.Services.Mint.{
  Moment, TokenExchangeResult, has_groups, validate, validation_for, of_kind, replay_id_of,
  expiry_of, qlik_claims, exchange_result, mint,
}
use jwt_exchange.Services.Exchange.{
  Shared, key_of, key_after_refresh, find_key, check_replay, unless_replayed, redeem,
  exchange_token,
}

module _ (X : Crates) where
  open X use {Value, Jwk, DecodingKey, from_jwk, EncodingKey, new_validation, decode, encode}

  -- The key came from the cache as the exchange leaves it, and the table is the one that it found.
  pub record IsFound (kid : String) (s s' : Shared Jwk) (dk : DecodingKey) : Type 0 where
    pub jwk : Jwk
    pub cached : lookup kid s'.cache.keys_by_kid ≡ some jwk
    pub usable : from_jwk jwk ≡ ok dk
    pub same_table : s'.used ≡ s.used

  held :
      (kid : String) (s s' t : Shared Jwk) (dk : DecodingKey) (jwk : Jwk)
      → lookup kid t.cache.keys_by_kid ≡ some jwk
      → t.used ≡ s.used
      → ◌≡◌ {A = Result DecodingKey ServiceError × Shared Jwk} (key_of X kid jwk, t) (ok dk, s')
      → IsFound kid s s' dk
  unfolding key_of
  held kid s s' t dk jwk e u h =
      subst (λ z. IsFound kid s z dk) (ap (λ p. p.1) h)
        (record {
          jwk = jwk;
          cached = e;
          usable = map_err-eq-ok _ (from_jwk jwk) (ap (λ p. p.0) h);
          same_table = u;
        })

  after_refresh :
      (kid : String) (s s' : Shared Jwk) (dk : DecodingKey) (r : Result (Unit {0}) ServiceError)
      (c : CachedJwks Jwk)
      → key_after_refresh X kid (r, c) s ≡ (ok dk, s')
      → IsFound kid s s' dk
  after_refresh kid s s' dk (err e) c h = absurd (ground arith)
  after_refresh kid s s' dk (ok _) c h = elim (Option-cases (lookup kid c.keys_by_kid)) [
    | inl e ↦ absurd (ground arith)
    | inr (jwk, e) ↦
        held kid s s' (record s { cache = c }) dk jwk e refl (rw (e, key_after_refresh) at h)
  ]

  pub find_key-IsFound :
      (m : Moment) (kid : String) (s s' : Shared Jwk) (dk : DecodingKey)
      → find_key X m kid s ≡ (ok dk, s')
      → IsFound kid s s' dk
  unfolding find_key key_of
  find_key-IsFound m kid s s' dk h = elim (Option-cases (lookup kid s.cache.keys_by_kid)) [
    | inl e ↦
        after_refresh kid s s' dk
          (force_refresh_jwks X m.client m.cooldown_at m.stamped_at s.cache.jwks_uri s.cache).0
          (force_refresh_jwks X m.client m.cooldown_at m.stamped_at s.cache.jwks_uri s.cache).1
          (rw (e, find_key) at h)
    | inr (jwk, e) ↦ held kid s s' s dk jwk e refl (rw (e, find_key) at h)
  ]

  -- The parts of a mint that succeeds.
  mint-eq-ok :
      (config : AppConfig) (m : Moment) (key : EncodingKey) (claims : InboundClaims Value)
      (sub replay_id : String) (requested : Option (List String)) (result : TokenExchangeResult)
      → mint X config m key claims sub replay_id requested ≡ ok result
      → (groups : Option (List String)) × (token : String) × (filter_groups requested
            config.groups_whitelist config.max_groups_count config.max_group_name_length
          ≡ ok groups)
        × (encode (qlik_claims X config m claims sub groups) key ≡ ok token)
        × (result ≡ exchange_result X config m claims sub replay_id token)
  unfolding mint
  mint-eq-ok config m key claims sub replay_id requested result h =
      let (groups, f, g) = >>=-eq-ok (filter_groups requested _ _ _) _ h in
      let (token, t, r) = >>=-eq-ok (map_err _ (encode _ key)) _ g in
      (groups, token, f, map_err-eq-ok _ (encode _ key) t, cc)

  record IsRedeemed (config : AppConfig) (m : Moment) (key : EncodingKey) (raw_token : String)
      (claims : InboundClaims Value) (requested : Option (List String)) (s s' : Shared Jwk)
      (result : TokenExchangeResult) : Type 0 where
    sub : String
    subject : claims.sub ≡ some sub
    fresh :
        check_and_record_jti m.faults
          (replay_id_of X raw_token claims)
          (expiry_of X claims)
          config.allow_replay
          (has_groups requested)
          s.used
        ≡ (ok false, s'.used)
    same_cache : s'.cache ≡ s.cache
    minted : mint X config m key claims sub (replay_id_of X raw_token claims) requested ≡ ok result

  unused :
      (config : AppConfig) (m : Moment) (key : EncodingKey) (claims : InboundClaims Value)
      (sub replay_id : String) (requested : Option (List String)) (used : Bool)
      (result : TokenExchangeResult)
      → unless_replayed X config m key claims sub replay_id requested used ≡ ok result
      → (used ≡ false) × (mint X config m key claims sub replay_id requested ≡ ok result)
  unused config m key claims sub replay_id requested true result h = absurd (ground arith)
  unused config m key claims sub replay_id requested false result h = (refl, h)

  redeem-IsRedeemed :
      (config : AppConfig) (m : Moment) (key : EncodingKey) (raw_token : String)
      (claims : InboundClaims Value) (requested : Option (List String)) (s s' : Shared Jwk)
      (result : TokenExchangeResult)
      → redeem X config m key raw_token claims requested s ≡ (ok result, s')
      → IsRedeemed config m key raw_token claims requested s s' result
  unfolding redeem check_replay
  redeem-IsRedeemed config m key raw_token claims requested s s' result h =
      let id = replay_id_of X raw_token claims in
      let call =
        check_and_record_jti m.faults id (expiry_of X claims) config.allow_replay
          (has_groups requested) s.used in
      let (sub, p, g) = continue-eq-ok (ok_or claims.sub malformed_token, s) _ h in
      let (used, q, f) =
        continue-eq-ok (check_replay X config m id (expiry_of X claims) (has_groups requested) s) _
          g in
      let (free, minted) =
        unused config m key claims sub id requested used result (ap (λ z. z.0) f) in
      let after : ◌≡◌ {A = Shared Jwk} (record s { used = call.1 }) s' = ap (λ z. z.1) f in
      let answered : call.0 ≡ ok false =
        map_err-eq-ok other call.0 (ap (λ z. z.0) q) ∙ ap (λ u. ok u) free in
      record {
        sub = sub;
        subject = ok_or-eq-ok claims.sub malformed_token (ap (λ z. z.0) p);
        fresh = λ i. (answered i, (after i).used);
        same_cache = ap (λ (z : Shared Jwk). z.cache) (sym after);
        minted = minted;
      }

  -- What the exchange did with the state and the outside to mint its result.
  pub record IsMinted (config : AppConfig) (m : Moment) (key : EncodingKey) (raw_token : String)
      (requested : Option (List String)) (s s' : Shared Jwk) (result : TokenExchangeResult)
      : Type 0 where
    pub size : len raw_token ≤ config.max_token_size
    pub kid : String
    pub kid_found : extract_kid X raw_token ≡ ok kid
    pub jwk : Jwk
    pub cached : lookup kid s'.cache.keys_by_kid ≡ some jwk
    pub decoding_key : DecodingKey
    pub usable : from_jwk jwk ≡ ok decoding_key
    pub claims : InboundClaims Value
    pub decoded :
        decode m.validated_at raw_token decoding_key (validation_for config new_validation)
        ≡ ok claims
    pub subject : claims.sub ≡ some result.outbound_sub
    pub fresh :
        check_and_record_jti m.faults
          (replay_id_of X raw_token claims)
          (expiry_of X claims)
          config.allow_replay
          (has_groups requested)
          s.used
        ≡ (ok false, s'.used)
    pub groups : Option (List String)
    pub granted :
        filter_groups requested config.groups_whitelist config.max_groups_count
          config.max_group_name_length
        ≡ ok groups
    pub token :
        encode (qlik_claims X config m claims result.outbound_sub groups) key
        ≡ ok result.access_token
    pub reported :
        result
        ≡ exchange_result X config m claims result.outbound_sub
            (replay_id_of X raw_token claims)
            result.access_token

  assemble :
      (config : AppConfig) (m : Moment) (key : EncodingKey) (raw_token : String)
      (requested : Option (List String)) (s t s' : Shared Jwk) (result : TokenExchangeResult)
      (kid : String) (dk : DecodingKey) (claims : InboundClaims Value)
      → len raw_token ≤ config.max_token_size
      → extract_kid X raw_token ≡ ok kid
      → IsFound kid s t dk
      → decode m.validated_at raw_token dk (validation_for config new_validation) ≡ ok claims
      → IsRedeemed config m key raw_token claims requested t s' result
      → IsMinted config m key raw_token requested s s' result
  assemble config m key raw_token requested s t s' result kid dk claims size k found v r =
      let id = replay_id_of X raw_token claims in
      let (groups, token, f, e, same) =
        mint-eq-ok config m key claims r.sub id requested result r.minted in
      let sub_eq : result.outbound_sub ≡ r.sub =
        ap (λ (z : TokenExchangeResult). z.outbound_sub) same in
      let token_eq : result.access_token ≡ token =
        ap (λ (z : TokenExchangeResult). z.access_token) same in
      record {
        size = size;
        kid = kid;
        kid_found = k;
        jwk = found.jwk;
        cached = ap (λ (c : CachedJwks Jwk). lookup kid c.keys_by_kid) r.same_cache ∙ found.cached;
        decoding_key = dk;
        usable = found.usable;
        claims = claims;
        decoded = v;
        subject = r.subject ∙ ap (λ a. some a) (sym sub_eq);
        fresh =
            ap
              (λ u.
                check_and_record_jti m.faults id (expiry_of X claims) config.allow_replay
                  (has_groups requested) u)
              (sym found.same_table)
            ∙ r.fresh;
        groups = groups;
        granted = f;
        token =
            ap (λ a. encode (qlik_claims X config m claims a groups) key) sub_eq
            ∙ e
            ∙ ap (λ a. ok a) (sym token_eq);
        reported =
            same
            ∙ ap₂ (λ a b. exchange_result X config m claims a id b) (sym sub_eq) (sym token_eq);
      }

  -- A result of the exchange is minted only for a token within the size limit, whose key identifier
  -- names a key that the cache holds, that the library validates with this key and the configured
  -- issuer and audience, that has a subject, and whose identifier was recorded now and was not used;
  -- the new token is the signature over the claims of this subject with the granted groups.
  pub exchange_token-IsMinted :
      (config : AppConfig) (m : Moment) (key : EncodingKey) (raw_token : String)
      (requested : Option (List String)) (s s' : Shared Jwk) (result : TokenExchangeResult)
      → exchange_token X config m key raw_token requested s ≡ (ok result, s')
      → IsMinted config m key raw_token requested s s' result
  unfolding exchange_token validate
  exchange_token-IsMinted config m key raw_token requested s s' result h =
      elim (Bool-cases (ltb config.max_token_size (len raw_token))) [
        | inl large ↦ absurd (let g = rw large at h in ground arith)
        | inr fits ↦
            let g = rw fits at h in
            let (kid, p, g₁) = continue-eq-ok (extract_kid X raw_token, s) _ g in
            let (dk, q, g₂) = continue-eq-ok (find_key X m kid s) _ g₁ in
            let t = (find_key X m kid s).1 in
            let found = find_key-IsFound m kid s t dk q in
            let (claims, v, g₃) = continue-eq-ok (validate X config m raw_token dk, t) _ g₂ in
            assemble config m key raw_token requested s t s' result kid dk claims
              (omega (arith, ltb→ge, fits)) (ap (λ z. z.0) p) found
              (map_err-eq-ok of_kind
                (decode m.validated_at raw_token dk (validation_for config new_validation))
                (ap (λ z. z.0) v))
              (redeem-IsRedeemed config m key raw_token claims requested t s' result g₃)
      ]
