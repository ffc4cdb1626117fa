-- ===== src/Services/Mint.antt =====
-- The pure parts of `exchange_token` of src/services/token_service.rs: the validation that it asks
-- for, the identifier of a replay, and the claims of the minted token. What the outside answers during
-- one exchange is a `Moment`.
use mathlib.Core.Option.{bind}
use jwt_exchange.Prelude.{
  ℕ, String, Bool, false, not, Option, none, some, get_or, List, [], ◌∷◌, is_empty, if◌then◌else◌,
}
use jwt_exchange.Prelude.Int.{ℤ, ◌+ℤ◌, ◌-ℤ◌, min_ℤ, wrap_i64, i64_max}
use Prim.Native.String.{◌++◌ as concat}
use jwt_exchange.Result.{Result, ok, map_err, ◌>>=◌}
use jwt_exchange.Error.{ServiceError, malformed_token, expired_token, signing}
use jwt_exchange.Str.{as_bytes}
use jwt_exchange.Crates.{
  Crates, Client, InboundClaims, QlikClaims, Validation, ErrorKind, expired_signature,
  invalid_token,
}
use jwt_exchange.Config.{AppConfig}
use jwt_exchange.Db.Replay.{Faults}
use jwt_exchange.Services.Groups.{filter_groups}

-- The network, the clocks, the new identifier and the faults of the database that one exchange sees.
pub record Moment : Type 0 where
  pub client : Client
  -- the instants at which a forced refresh reads the cooldown and stamps its attempt
  pub cooldown_at : ℕ
  pub stamped_at : ℕ
  -- the seconds of the clock when the token is validated, and when the new one is minted
  pub validated_at : ℤ
  pub minted_at : ℤ
  pub new_jti : String
  pub faults : Faults

pub record TokenExchangeResult : Type 0 where
  pub access_token : String
  pub expires_in : ℤ
  pub issued_at : String
  pub outbound_sub : String
  pub token_jti : String
  pub token_hash : String
  pub inbound_sub : String
  pub inbound_iss : Option String
  pub inbound_aud : Option String

-- The failure that each kind of validation error becomes.
unfoldable pub of_kind : ErrorKind → ServiceError
of_kind expired_signature = expired_token
of_kind ErrorKind.invalid_issuer = ServiceError.invalid_issuer
of_kind ErrorKind.invalid_audience = ServiceError.invalid_audience
of_kind ErrorKind.invalid_signature = ServiceError.invalid_signature
of_kind invalid_token = malformed_token
of_kind ErrorKind.another = ServiceError.invalid_signature

-- `requested_groups.map_or(false, |g| !g.is_empty())`
abbrev pub has_groups : Option (List String) → Bool
has_groups none = false
has_groups (some gs) = not (is_empty gs)

-- Without an audience to expect, the validation keeps the audience of `Validation::new`.
abbrev with_audience : Option String → Validation → Validation
with_audience none v = v
with_audience (some aud) v = record v { audience = some (aud ∷ []) }

-- The validation that a configuration asks for, from the one of `Validation::new`.
unfoldable pub validation_for : AppConfig → Validation → Validation
validation_for config base =
    let v : Validation = record base {
      issuer = some (config.inbound_issuer_uri ∷ []);
      leeway = 30;
    } in
    if config.inbound_audience_validation_enabled
    then with_audience config.inbound_expected_audience v
    else record v { validate_aud = false }

module _ (X : Crates) where
  open X use {
    Value, as_str, DecodingKey, EncodingKey, new_validation, decode, encode, sha256_hex, rfc3339,
  }

  -- Step 4.
  unfoldable pub validate :
      AppConfig → Moment → String → DecodingKey → Result (InboundClaims Value) ServiceError
  validate config m raw_token key =
      map_err of_kind (decode m.validated_at raw_token key (validation_for config new_validation))

  unfoldable pub hash_token : String → String
  hash_token raw_token = sha256_hex (as_bytes raw_token)

  -- Step 5: the identifier by which a replay is recognised.
  unfoldable pub replay_id_of : String → InboundClaims Value → String
  replay_id_of raw_token claims = get_or claims.jti (hash_token raw_token)

  abbrev pub expiry_of : InboundClaims Value → ℤ
  expiry_of claims = get_or claims.exp i64_max

  -- Step 6: `i64` sums wrap around in a release build.
  unfoldable pub expiry : AppConfig → Moment → InboundClaims Value → ℤ
  expiry config m claims =
      min_ℤ (wrap_i64 (m.minted_at +ℤ config.token_ttl_seconds)) (expiry_of claims)

  unfoldable pub qlik_claims :
      AppConfig → Moment → InboundClaims Value → String → Option (List String) → QlikClaims
  unfolding expiry
  qlik_claims config m claims inbound_sub groups = record {
    userid = inbound_sub;
    userdirectory = config.qlik_user_directory;
    name = claims.name;
    email = claims.email;
    groups = groups;
    iss = "jwt-exchange";
    aud = config.qlik_audience;
    exp = expiry config m claims;
    nbf = m.minted_at;
    iat = m.minted_at;
    jti = m.new_jti;
  }

  abbrev pub exchange_result :
      AppConfig → Moment → InboundClaims Value → String → String → String → TokenExchangeResult
  exchange_result config m claims inbound_sub replay_id access_token = record {
    access_token = access_token;
    expires_in = wrap_i64 (expiry config m claims -ℤ m.minted_at);
    issued_at = rfc3339 m.minted_at;
    outbound_sub = inbound_sub;
    token_jti = m.new_jti;
    token_hash = replay_id;
    inbound_sub = inbound_sub;
    inbound_iss = claims.iss;
    inbound_aud = bind claims.aud as_str;
  }

  -- Steps 6 and 7, for a token that is valid and was not used.
  unfoldable pub mint :
      AppConfig
      → Moment
      → EncodingKey
      → InboundClaims Value
      → String
      → String
      → Option (List String)
      → Result TokenExchangeResult ServiceError
  mint config m key claims inbound_sub replay_id requested = do
    groups ←
        filter_groups requested config.groups_whitelist config.max_groups_count
          config.max_group_name_length
    access_token ←
        map_err (λ e. signing (concat "JWT signing failed: " e))
          (encode (qlik_claims config m claims inbound_sub groups) key)
    ok (exchange_result config m claims inbound_sub replay_id access_token)
