-- ===== src/Config.antt =====
-- src/config.rs: the configuration, its parsing from the environment, and where the RSA key pair
-- comes from. The environment is a function of the variable's name; a variable that is missing or
-- is not valid Unicode is `none`, as `std::env::var` reports both by an error.
pub mod Parsing
pub mod Tests
use Prim.Native.String.{◌++◌ as concat}
use jwt_exchange.Prelude.{
  ℕ, ◌-◌, ◌^◌, String, Bool, true, false, not, ◌&&◌, ◌||◌, Option, none, some, get_or, List, [],
  map, keep, is_some, if◌then◌else◌,
}
use jwt_exchange.Prelude.Int.{ℤ, pos}
use jwt_exchange.Result.{Result, ok, err, ok_or, ◌>>=◌}
use jwt_exchange.Str.{split, trim, eq_ignore_ascii_case, is_empty_str}
use jwt_exchange.Str.Parse.{parse_unsigned, parse_i64}

pub record AppConfig : Type 0 where
  pub inbound_issuer_uri : String
  pub inbound_audience_validation_enabled : Bool
  pub inbound_expected_audience : Option String
  pub rsa_private_key_path : Option String
  pub rsa_public_cert_path : Option String
  pub rsa_key_path : Option String
  pub qlik_audience : String
  pub qlik_user_directory : Option String
  pub token_ttl_seconds : ℤ
  pub listen_host : String
  pub listen_port : ℕ
  pub db_path : String
  pub log_retention_days : ℤ
  pub splunk_hec_url : Option String
  pub splunk_hec_token : Option String
  pub splunk_hec_skip_tls_verify : Bool
  pub groups_whitelist : List String
  pub max_token_size : ℕ
  pub max_groups_count : ℕ
  pub max_group_name_length : ℕ
  pub allow_replay : Bool

pub data ConfigError : Type 0 where
  missing : String → ConfigError
  audience_validation_configured : ConfigError

abbrev pub Env : Type 0
Env = String → Option String

-- `v.eq_ignore_ascii_case("true") || ... ("1") || ... ("yes")`
unfoldable pub is_affirmative : String → Bool
unfolding eq_ignore_ascii_case
is_affirmative v =
    eq_ignore_ascii_case v "true" || eq_ignore_ascii_case v "1" || eq_ignore_ascii_case v "yes"

-- A switch that has a default where its variable is not set.
unfoldable pub flag : Option String → Bool → Bool
unfolding is_affirmative
flag none default = default
flag (some v) default = is_affirmative v

-- `.ok().and_then(|v| v.parse().ok()).unwrap_or(default)`
abbrev pub parsed_or {ℓ} : {A : Type ℓ} → (String → Option A) → A → Option String → A
parsed_or parse default none = default
parsed_or parse default (some v) = get_or (parse v) default

-- The set of `GROUPS_WHITELIST`, as the list of its members; a member may stand in it twice.
unfoldable pub whitelist_of : Option String → List String
unfolding split trim
whitelist_of none = []
whitelist_of (some v) = keep (λ s. not (is_empty_str s)) (map trim (split b',' v))

abbrev pub usize_max : ℕ
usize_max = 2 ^ 64 - 1

-- What `from_env` checks before it builds the record, in its order.
unfoldable pub checked : Env → Result (String × String) ConfigError
unfolding flag
checked env = do
  issuer ← ok_or (env "INBOUND_ISSUER_URI") (missing "INBOUND_ISSUER_URI")
  if flag (env "INBOUND_AUDIENCE_VALIDATION") true
        && not (is_some (env "INBOUND_EXPECTED_AUDIENCE"))
      then err audience_validation_configured
      else do
        audience ← ok_or (env "QLIK_AUDIENCE") (missing "QLIK_AUDIENCE")
        ok (issuer, audience)

-- The configuration that `from_env` builds once its checks have passed.
unfoldable pub configured : Env → String × String → AppConfig
unfolding flag whitelist_of parse_unsigned parse_i64
configured env found = record {
  inbound_issuer_uri = found.0;
  inbound_audience_validation_enabled = flag (env "INBOUND_AUDIENCE_VALIDATION") true;
  inbound_expected_audience = env "INBOUND_EXPECTED_AUDIENCE";
  rsa_private_key_path = env "RSA_PRIVATE_KEY_PATH";
  rsa_public_cert_path = env "RSA_PUBLIC_CERT_PATH";
  rsa_key_path = env "RSA_KEY_PATH";
  qlik_audience = found.1;
  qlik_user_directory = env "QLIK_USER_DIRECTORY";
  token_ttl_seconds = parsed_or parse_i64 (pos 3600) (env "TOKEN_TTL_SECONDS");
  listen_host = get_or (env "LISTEN_HOST") "0.0.0.0";
  listen_port = parsed_or (parse_unsigned 65535) 8080 (env "LISTEN_PORT");
  db_path = get_or (env "DB_PATH") "./jwt-exchange.db";
  log_retention_days = parsed_or parse_i64 (pos 60) (env "LOG_RETENTION_DAYS");
  splunk_hec_url = env "SPLUNK_HEC_URL";
  splunk_hec_token = env "SPLUNK_HEC_TOKEN";
  splunk_hec_skip_tls_verify = flag (env "SPLUNK_HEC_SKIP_TLS_VERIFY") false;
  groups_whitelist = whitelist_of (env "GROUPS_WHITELIST");
  max_token_size = parsed_or (parse_unsigned usize_max) 10000 (env "MAX_TOKEN_SIZE");
  max_groups_count = parsed_or (parse_unsigned usize_max) 50 (env "MAX_GROUPS_COUNT");
  max_group_name_length = parsed_or (parse_unsigned usize_max) 256 (env "MAX_GROUP_NAME_LENGTH");
  allow_replay = flag (env "ALLOW_REPLAY") false;
}

-- `AppConfig::from_env`, after `dotenvy` has read its file into the environment.
unfoldable pub from_env : Env → Result AppConfig ConfigError
unfolding checked configured
from_env env = do found ← checked env; ok (configured env found)

pub data RsaSource : Type 0 where
  load : (private_key public_cert : String) → RsaSource
  auto_generate : (directory : String) → RsaSource
  missing_keys : RsaSource

-- `rsa_source`, on the three paths; `join` is `Path::join`.
unfoldable pub source_of :
    (join : String → String → String) → Option String → Option String → Option String → RsaSource
source_of join (some pk) (some cert) _ = load pk cert
source_of join none none (some dir) = auto_generate dir
source_of join (some pk) none (some dir) = load pk (join dir "public.pem")
source_of join none (some cert) (some dir) = load (join dir "private.pem") cert
source_of join _ _ _ = missing_keys

unfoldable pub rsa_source : (join : String → String → String) → AppConfig → RsaSource
unfolding source_of
rsa_source join c = source_of join c.rsa_private_key_path c.rsa_public_cert_path c.rsa_key_path
