-- ===== src/Services/Exchange/Tests.antt =====
-- An exchange at inputs, and the theorems at it.
use mathlib.Core.Path.{subst}
use mathlib.Core.Option.{bind}
use jwt_exchange.Prelude.{
  ◌≢◌, String, ◌≡◌, refl, sym, ap, ◌∙◌, true, false, none, some, [], ◌∷◌, arith, str_eq, Bool-cases,
  inl, inr,
}
use jwt_exchange.Prelude.Int.{ℤ, pos, wrap_i64, ◌-ℤ◌, ◌+ℤ◌, ◌≤ℤ◌, ◌<ℤ◌}
use jwt_exchange.Result.{Result, ok, err}
use jwt_exchange.Error.{malformed_token, replay_detected}
use jwt_exchange.Maps.{lookup}
use jwt_exchange.Crates.{InboundClaims, ErrorKind, Validation}
use jwt_exchange.Crates.Sample.{sample, sample_claims, answering}
use jwt_exchange.Config.{AppConfig}
use jwt_exchange.Db.Replay.{no_faults, check_and_record_jti}
use jwt_exchange.Str.{split, prepend, as_bytes}
use jwt_exchange.Services.Base64.{base64url_decode}
use jwt_exchange.Services.Groups.{filter_groups}
use jwt_exchange.Db.Replay.History.{run}
use jwt_exchange.Services.Kid.{kid_of_header, extract_kid}
use jwt_exchange.Services.Mint.{
  Moment, TokenExchangeResult, validate, mint, expiry, replay_id_of, validation_for, of_kind,
  qlik_claims, expiry_of,
}
use jwt_exchange.Services.Exchange.{
  Shared, find_key, key_of, check_replay, audience_text, redeem, exchange_token,
}
use jwt_exchange.Services.Exchange.Minted.{IsMinted, exchange_token-IsMinted}
use jwt_exchange.Services.Exchange.Lifetime.{exchange_lifetime, exchange_within_leeway}
use jwt_exchange.Services.Exchange.Once.{ClaimsFixed, exchange_once}
use jwt_exchange.Services.Exchange.Rejections.{CacheOwed, TableOwed, exchange_token_effects}
use jwt_exchange.Services.Exchange.Refused.{IsAccepted, exchange_token_refused_groups}

abbrev pub config : AppConfig
config = record {
  inbound_issuer_uri = "https://idp";
  inbound_audience_validation_enabled = true;
  inbound_expected_audience = some "qlik";
  rsa_private_key_path = none;
  rsa_public_cert_path = none;
  rsa_key_path = some "./certs";
  qlik_audience = "qlik.api";
  qlik_user_directory = none;
  token_ttl_seconds = pos 3600;
  listen_host = "0.0.0.0";
  listen_port = 8080;
  db_path = "./jwt-exchange.db";
  log_retention_days = pos 60;
  splunk_hec_url = none;
  splunk_hec_token = none;
  splunk_hec_skip_tls_verify = false;
  groups_whitelist = "g1" ∷ [];
  max_token_size = 10000;
  max_groups_count = 50;
  max_group_name_length = 2;
  allow_replay = false;
}

abbrev pub moment : Moment
moment = record {
  client = answering;
  cooldown_at = 900;
  stamped_at = 1000;
  validated_at = pos 1999;
  minted_at = pos 2000;
  new_jti = "new-1";
  faults = no_faults;
}

-- The same at a time after the expiry, within the leeway.
abbrev late : Moment
late = record moment { validated_at = pos 5020; minted_at = pos 5021 }

abbrev pub fresh : Shared String
fresh = record {
  cache = record {
    keys_by_kid = ("k1", "k1") ∷ [];
    etag = none;
    jwks_uri = "https://idp/keys";
    last_force_refresh = none;
    consecutive_force_refresh_failures = 0;
  };
  used = [];
}

abbrev pub after : Shared String
after = record fresh { used = (record { jti = "jti-1"; has_groups = 0; exp = pos 5000 }) ∷ [] }

abbrev pub result_at : ℤ → TokenExchangeResult
result_at expires_in = record {
  access_token = "minted";
  expires_in = expires_in;
  issued_at = "1970-01-01T00:33:20Z";
  outbound_sub = "alice";
  token_jti = "new-1";
  token_hash = "jti-1";
  inbound_sub = "alice";
  inbound_iss = some "https://idp";
  inbound_aud = some "qlik";
}

abbrev pub token : String
token = "aGVsbG8.e30.c2ln"

pub minted :
    exchange_token sample config moment "key" token none fresh ≡ (ok (result_at (pos 3000)), after)
unfolding exchange_token find_key redeem check_replay validate mint qlik_claims expiry extract_kid
    kid_of_header split base64url_decode check_and_record_jti key_of filter_groups replay_id_of
    audience_text of_kind validation_for as_bytes bind lookup wrap_i64 ◌-ℤ◌ ◌+ℤ◌
minted = refl

minted_late :
    exchange_token sample config late "key" token none fresh ≡ (ok (result_at (ℤ.negsuc 20)), after)
unfolding exchange_token find_key redeem check_replay validate mint qlik_claims expiry extract_kid
    kid_of_header split base64url_decode check_and_record_jti key_of filter_groups replay_id_of
    audience_text of_kind validation_for as_bytes bind lookup wrap_i64 ◌-ℤ◌ ◌+ℤ◌
minted_late = refl

exchange_token-IsMinted_example :
    IsMinted sample config moment "key" token none fresh after (result_at (pos 3000))
exchange_token-IsMinted_example =
    exchange_token-IsMinted sample config moment "key" token none fresh after (result_at (pos 3000))
      minted

abbrev in_time : IsMinted sample config moment "key" token none fresh after (result_at (pos 3000))
in_time =
    exchange_token-IsMinted sample config moment "key" token none fresh after (result_at (pos 3000))
      minted

abbrev in_leeway :
    IsMinted sample config late "key" token none fresh after (result_at (ℤ.negsuc 20))
in_leeway =
    exchange_token-IsMinted sample config late "key" token none fresh after
      (result_at (ℤ.negsuc 20)) minted_late

inj_claims :
    {a b : InboundClaims String}
    → ◌≡◌ {A = Result (InboundClaims String) ErrorKind} (ok a) (ok b)
    → a ≡ b
inj_claims h = cc

sample_decoded :
    (now : ℤ) (raw k : String) (v : Validation) (c : InboundClaims String)
    → sample.decode now raw k v ≡ ok c
    → sample_claims ≡ c
sample_decoded now raw k v c h = elim (Bool-cases (str_eq k "k1")) [
  | inl e ↦ inj_claims (rw e at h)
  | inr e ↦ absurd (let g = rw e at h in ground arith)
]

fixed : ClaimsFixed sample
fixed raw now now' k k' v v' c c' h h' =
    sym (sample_decoded now raw k v c h) ∙ sample_decoded now' raw k' v' c' h'

in_time_expiry : expiry_of sample in_time.claims ≡ pos 5000
in_time_expiry =
    ap (λ c. expiry_of sample c)
      (sym (
        sample_decoded moment.validated_at token in_time.decoding_key
          (validation_for config sample.new_validation) in_time.claims in_time.decoded))

exchange_lifetime_example :
    ((qlik_claims sample config moment in_time.claims "alice" in_time.groups).exp
      ≤ℤ expiry_of sample in_time.claims)
    × ((qlik_claims sample config moment in_time.claims "alice" in_time.groups).exp
        ≤ℤ pos 2000 +ℤ pos 3600)
    × (pos 2000 +ℤ pos 3000
        ≡ (qlik_claims sample config moment in_time.claims "alice" in_time.groups).exp)
unfolding ◌+ℤ◌
exchange_lifetime_example =
    exchange_lifetime sample config moment "key" token none fresh after (result_at (pos 3000))
      in_time (omega arith) (omega arith) (omega arith)
      (subst (λ e. pos 0 ≤ℤ e) (sym in_time_expiry) (omega arith))

in_leeway_expiry : expiry_of sample in_leeway.claims ≡ pos 5000
in_leeway_expiry =
    ap (λ c. expiry_of sample c)
      (sym (
        sample_decoded late.validated_at token in_leeway.decoding_key
          (validation_for config sample.new_validation) in_leeway.claims in_leeway.decoded))

exchange_within_leeway_example :
    ((qlik_claims sample config late in_leeway.claims "alice" in_leeway.groups).exp
      ≡ expiry_of sample in_leeway.claims)
    × (ℤ.negsuc 20 <ℤ pos 0)
unfolding ◌+ℤ◌
exchange_within_leeway_example =
    exchange_within_leeway sample config late "key" token none fresh after (result_at (ℤ.negsuc 20))
      in_leeway (omega arith) (subst (λ e. pos 0 ≤ℤ e) (sym in_leeway_expiry) (omega arith))
      (omega arith) (omega arith) (subst (λ e. e <ℤ pos 5021) (sym in_leeway_expiry) (omega arith))

exchange_once_example :
    (exchange_token sample config late "other key" token (some ("g1" ∷ [])) after).0
    ≢ ok (result_at (pos 3000))
unfolding run
exchange_once_example =
    exchange_once sample config config moment late "key" "other key" token none (some ("g1" ∷ []))
      fresh after after [] (result_at (pos 3000)) (result_at (pos 3000)) fixed in_time refl tt refl
      refl

exchange_token_effects_example :
    CacheOwed sample config moment "key" token none fresh
      (exchange_token sample config moment "key" token none fresh).1
    × TableOwed sample config moment "key" token none fresh
        (exchange_token sample config moment "key" token none fresh).1
exchange_token_effects_example = exchange_token_effects sample config moment "key" token none fresh

malformed : (exchange_token sample config moment "key" "a.b" none fresh).0 ≡ err malformed_token
unfolding exchange_token extract_kid split prepend
malformed = refl

-- The provider does not answer, and the key is not in the cache.
abbrev cut_off : Shared String
cut_off = record fresh { cache = record fresh.cache { keys_by_kid = [] } }

in_cache : IsAccepted sample config moment token sample_claims "alice" fresh.cache
unfolding extract_kid kid_of_header split base64url_decode as_bytes bind lookup validate
in_cache = record {
  kid = "k1";
  jwk = "k1";
  dk = "k1";
  small = refl;
  named = refl;
  cached = refl;
  usable = refl;
  accepted = refl;
  subject = refl;
}

exchange_token_refused_groups_example :
    ((exchange_token sample config moment "key" token (some ("long" ∷ [])) fresh).0
      ≡ err malformed_token)
    × ((exchange_token sample config moment "key" token none
          (exchange_token sample config moment "key" token (some ("long" ∷ [])) fresh).1).0
        ≡ err (
            replay_detected "alice"
              (some "https://idp")
              (audience_text sample (some "qlik"))
              (replay_id_of sample token sample_claims)))
unfolding filter_groups
exchange_token_refused_groups_example =
    exchange_token_refused_groups sample config moment moment "key" "key" token "alice"
      sample_claims (some ("long" ∷ [])) none fresh malformed_token refl in_cache refl refl refl
      refl in_cache refl
