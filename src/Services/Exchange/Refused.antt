-- ===== src/Services/Exchange/Refused.antt =====
-- What a refusal for the groups costs: `exchange_token` of src/services/token_service.rs records the
-- identifier of a token before it looks at the groups.
use jwt_exchange.Prelude.{
  String, len, ◌≡◌, refl, ap, ◌∙◌, Bool, true, false, Option, none, some, List, [], ◌∷◌, any, ltb,
  arith, eq_refl,
}
use jwt_exchange.Prelude.Int.{ℤ}
use jwt_exchange.Result.{ok, err, map_err, ok_or}
use jwt_exchange.Task.{continue-of-ok}
use jwt_exchange.Error.{ServiceError, malformed_token, replay_detected, other}
use jwt_exchange.Maps.{lookup}
use jwt_exchange.Crates.{Crates, InboundClaims}
use jwt_exchange.Config.{AppConfig}
use jwt_exchange.Auth.Jwks.{CachedJwks}
use jwt_exchange.Db.Replay.{
  Row, Table, Faults, has_jti, has_key, select_jti, strict_write, check_and_record_jti,
}
use jwt_exchange.Services.Kid.{extract_kid}
use jwt_exchange.Services.Groups.{filter_groups}
use jwt_exchange.Services.Mint.{Moment, has_groups, validate, replay_id_of, expiry_of}
use jwt_exchange.Services.Exchange.{
  Shared, key_of, find_key, check_replay, audience_text, redeem, exchange_token,
}
use jwt_exchange.Services.Exchange.Failures.{redeem_refused_groups}

abbrev pub strict_row : String → ℤ → Row
strict_row jti exp = record { jti = jti; has_groups = 0; exp = exp }

-- An identifier without a row has none under the key of the strict mode.
free_key : (jti : String) (t : Table) → any (has_jti jti) t ≡ false → any (has_key jti 0) t ≡ false
free_key jti [] h = refl
free_key jti (r ∷ t) h = ground (arith, free_key jti t)

strict_call :
    (f : Faults) (jti : String) (exp : ℤ) (groups : Bool) (t : Table)
    → f.read ≡ none
    → f.write ≡ none
    → any (has_jti jti) t ≡ false
    → check_and_record_jti f jti exp false groups t ≡ (ok false, strict_row jti exp ∷ t)
unfolding check_and_record_jti select_jti strict_write
strict_call f jti exp groups t reads writes free =
    rw (reads, free, writes, free_key jti t free) refl

strict_recall :
    (f : Faults) (jti : String) (exp exp' : ℤ) (groups : Bool) (t : Table)
    → f.read ≡ none
    → check_and_record_jti f jti exp false groups (strict_row jti exp' ∷ t)
      ≡ (ok true, strict_row jti exp' ∷ t)
unfolding check_and_record_jti select_jti
strict_recall f jti exp exp' groups t reads = rw (reads, eq_refl jti) refl

module _ (X : Crates) (config : AppConfig) where
  open X use {Value, Jwk, DecodingKey, EncodingKey, from_jwk}

  -- At this moment the token passes steps 1 to 4, with a key that the cache holds, to claims with a
  -- subject.
  pub record IsAccepted (m : Moment) (raw : String) (claims : InboundClaims Value) (sub : String)
      (cache : CachedJwks Jwk) : Type 0 where
    pub kid : String
    pub jwk : Jwk
    pub dk : DecodingKey
    pub small : ltb config.max_token_size (len raw) ≡ false
    pub named : extract_kid X raw ≡ ok kid
    pub cached : lookup kid cache.keys_by_kid ≡ some jwk
    pub usable : from_jwk jwk ≡ ok dk
    pub accepted : validate X config m raw dk ≡ ok claims
    pub subject : claims.sub ≡ some sub

  find_key_cached :
      (m : Moment) (kid : String) (jwk : Jwk) (dk : DecodingKey) (s : Shared Jwk)
      → lookup kid s.cache.keys_by_kid ≡ some jwk
      → from_jwk jwk ≡ ok dk
      → find_key X m kid s ≡ (ok dk, s)
  unfolding find_key key_of
  find_key_cached m kid jwk dk s e q = rw (e, find_key, q) refl

  -- The exchange of such a token is its last part.
  exchange_token-redeem :
      (m : Moment) (key : EncodingKey) (raw sub : String) (claims : InboundClaims Value)
      (requested : Option (List String)) (s : Shared Jwk)
      → IsAccepted m raw claims sub s.cache
      → exchange_token X config m key raw requested s ≡ redeem X config m key raw claims requested s
  unfolding exchange_token
  exchange_token-redeem m key raw sub claims requested s v = rw v.small (
      continue-of-ok (extract_kid X raw, s) _ (ap (λ r. (r, s)) v.named)
      ∙ continue-of-ok (find_key X m v.kid s) _
          (find_key_cached m v.kid v.jwk v.dk s v.cached v.usable)
      ∙ continue-of-ok (validate X config m raw v.dk, s) _ (ap (λ r. (r, s)) v.accepted))

  -- A replay that the strict mode finds.
  redeem_replayed :
      (m : Moment) (key : EncodingKey) (raw sub : String) (claims : InboundClaims Value)
      (requested : Option (List String)) (s : Shared Jwk)
      → claims.sub ≡ some sub
      → check_and_record_jti m.faults
          (replay_id_of X raw claims)
          (expiry_of X claims)
          config.allow_replay
          (has_groups requested)
          s.used
        ≡ (ok true, s.used)
      → redeem X config m key raw claims requested s ≡ (
        err (
            replay_detected sub claims.iss
              (audience_text X claims.aud)
              (replay_id_of X raw claims)),
        s,
      )
  unfolding redeem check_replay
  redeem_replayed m key raw sub claims requested s h c =
      continue-of-ok (ok_or claims.sub malformed_token, s) _
        (ap (λ o. (ok_or o malformed_token, s)) h)
      ∙ continue-of-ok
          (check_replay X config m (replay_id_of X raw claims) (expiry_of X claims)
            (has_groups requested) s)
          _ (ap (λ z. (map_err other z.0, record s { used = z.1 })) c)

  -- In the strict mode and without faults of the database, an exchange of a valid token with a free
  -- identifier whose groups are refused answers with the refusal, and every later exchange of the
  -- token from the state that it leaves, whatever groups it asks for, finds a replay, as long as the
  -- token is valid to it, with a key of the cache, and it reads the table.
  pub exchange_token_refused_groups :
      (m m' : Moment) (key key' : EncodingKey) (raw sub : String) (claims : InboundClaims Value)
      (requested requested' : Option (List String)) (s : Shared Jwk) (e : ServiceError)
      → config.allow_replay ≡ false
      → IsAccepted m raw claims sub s.cache
      → m.faults.read ≡ none
      → m.faults.write ≡ none
      → any (has_jti (replay_id_of X raw claims)) s.used ≡ false
      → filter_groups requested config.groups_whitelist config.max_groups_count
          config.max_group_name_length
        ≡ err e
      → IsAccepted m' raw claims sub s.cache
      → m'.faults.read ≡ none
      → ((exchange_token X config m key raw requested s).0 ≡ err e)
        × ((exchange_token X config m' key' raw requested'
              (exchange_token X config m key raw requested s).1).0
            ≡ err (
                replay_detected sub claims.iss
                  (audience_text X claims.aud)
                  (replay_id_of X raw claims)))
  exchange_token_refused_groups m m' key key' raw sub claims requested requested' s e strict v reads
        writes free refused v' reads' =
      let id = replay_id_of X raw claims in
      let exp = expiry_of X claims in
      let s' : Shared Jwk = record s { used = strict_row id exp ∷ s.used } in
      let first : exchange_token X config m key raw requested s ≡ (err e, s') =
        exchange_token-redeem m key raw sub claims requested s v
        ∙ redeem_refused_groups X config m key raw sub claims requested s s'.used e v.subject
            (ap (λ a. check_and_record_jti m.faults id exp a (has_groups requested) s.used) strict
              ∙ strict_call m.faults id exp (has_groups requested) s.used reads writes free)
            refused in
      let second : exchange_token X config m' key' raw requested' s'
          ≡ (err (replay_detected sub claims.iss (audience_text X claims.aud) id), s') =
        exchange_token-redeem m' key' raw sub claims requested' s' v'
        ∙ redeem_replayed m' key' raw sub claims requested' s' v'.subject (
            ap (λ a. check_and_record_jti m'.faults id exp a (has_groups requested') s'.used) strict
            ∙ strict_recall m'.faults id exp exp (has_groups requested') s.used reads') in
      (
        ap (λ z. z.0) first,
        ap (λ z. (exchange_token X config m' key' raw requested' z.1).0) first
            ∙ ap (λ z. z.0) second,
      )
