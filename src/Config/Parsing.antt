-- ===== src/Config/Parsing.antt =====
-- What a configuration that `from_env` accepts satisfies, and when it refuses the environment.
use mathlib.Core.Path.{subst}
use jwt_exchange.Prelude.{
  ℕ, ◌≤◌, String, ◌≡◌, ◌≢◌, ◌↔◌, true, false, not, Option, none, some, List, [], ◌∷◌, map, All,
  All-keep_test, arith, ◌⊎◌, inl, inr, Option-cases,
}
use jwt_exchange.Prelude.Int.{ℤ, pos, IsI64}
use jwt_exchange.Result.{Result, ok, >>=-eq-ok}
use jwt_exchange.Str.{is_empty_str, split, trim}
use jwt_exchange.Str.Parse.{parse_unsigned, parse_i64, parse_unsigned-le, parse_i64-IsI64}
use jwt_exchange.Config.{
  AppConfig, ConfigError, Env, flag, whitelist_of, usize_max, checked, from_env, parsed_or,
  missing_keys, auto_generate, configured, rsa_source,
}

-- The limits that the types of the fields promise, and what the checks add to them.
pub record IsValid (c : AppConfig) : Type 0 where
  pub audience_known :
      c.inbound_audience_validation_enabled ≡ true → c.inbound_expected_audience ≢ none
  pub ttl : IsI64 c.token_ttl_seconds
  pub port : c.listen_port ≤ 65535
  pub retention : IsI64 c.log_retention_days
  pub token_size : c.max_token_size ≤ usize_max
  pub groups_count : c.max_groups_count ≤ usize_max
  pub name_length : c.max_group_name_length ≤ usize_max
  pub members : All (λ g. is_empty_str g ≡ false) c.groups_whitelist

parsed_or-le :
    (most default : ℕ) (v : Option String)
    → default ≤ most
    → parsed_or (parse_unsigned most) default v ≤ most
parsed_or-le most default none h = h
parsed_or-le most default (some v) h = elim (Option-cases (parse_unsigned most v)) [
  | inl e ↦ rw e h
  | inr (n, e) ↦ rw e (parse_unsigned-le most v n e)
]

parsed_or-IsI64 :
    (default : ℤ) (v : Option String) → IsI64 default → IsI64 (parsed_or parse_i64 default v)
parsed_or-IsI64 default none h = h
parsed_or-IsI64 default (some v) h = elim (Option-cases (parse_i64 v)) [
  | inl e ↦ rw e h
  | inr (n, e) ↦ rw e (parse_i64-IsI64 v n e)
]

nonempty :
    (xs : List String)
    → All (λ g. not (is_empty_str g) ≡ true) xs
    → All (λ g. is_empty_str g ≡ false) xs
nonempty [] h = tt
nonempty (x ∷ xs) (p, h) = (ground arith, nonempty xs h)

whitelist_of-nonempty : (v : Option String) → All (λ g. is_empty_str g ≡ false) (whitelist_of v)
unfolding whitelist_of
whitelist_of-nonempty none = tt
whitelist_of-nonempty (some v) =
    nonempty _ (All-keep_test (λ g. not (is_empty_str g)) (map trim (split b',' v)))

abbrev IsAccepted : Env → Type 0
IsAccepted env =
    (env "INBOUND_ISSUER_URI" ≢ none)
    × (env "QLIK_AUDIENCE" ≢ none)
    × ((flag (env "INBOUND_AUDIENCE_VALIDATION") true ≡ false)
        ⊎ (env "INBOUND_EXPECTED_AUDIENCE" ≢ none))

checked_sound : (env : Env) (p : String × String) → checked env ≡ ok p → IsAccepted env
unfolding checked
checked_sound env p h = ground arith

checked_complete : (env : Env) → IsAccepted env → (p : String × String) × (checked env ≡ ok p)
unfolding checked
checked_complete env h = elim (Option-cases (env "INBOUND_ISSUER_URI")) [
  | inl e ↦ absurd (h.0 e)
  | inr (i, e) ↦ elim (Option-cases (env "QLIK_AUDIENCE")) [
    | inl f ↦ absurd (h.1 f)
    | inr (a, f) ↦ ((i, a), ground arith)
  ]
]

-- `from_env` builds a configuration exactly where the issuer and the audience of the minted tokens
-- are set, and the expected audience is set or its validation is switched off.
pub from_env-eq-ok_iff :
    (env : Env)
    → ((c : AppConfig) × (from_env env ≡ ok c)) ↔ (
        (env "INBOUND_ISSUER_URI" ≢ none)
        × (env "QLIK_AUDIENCE" ≢ none)
        × ((flag (env "INBOUND_AUDIENCE_VALIDATION") true ≡ false)
            ⊎ (env "INBOUND_EXPECTED_AUDIENCE" ≢ none)))
unfolding from_env
from_env-eq-ok_iff env = (
  λ h. let (p, e, _) = >>=-eq-ok (checked env) _ h.1 in checked_sound env p e,
  λ h. let (p, e) = checked_complete env h in (configured env p, rw e),
)

-- Every configuration that `from_env` builds is valid: an expected audience is there where it is
-- validated, each number fits its type, and no member of the whitelist is empty.
pub from_env-IsValid : (env : Env) (c : AppConfig) → from_env env ≡ ok c → IsValid c
unfolding from_env configured
from_env-IsValid env c h =
    let (p, e, f) = >>=-eq-ok (checked env) _ h in
    subst IsValid (ok_inj f) (record {
      audience_known = λ on. ground (arith, checked_sound env p e);
      ttl = parsed_or-IsI64 (pos 3600) (env "TOKEN_TTL_SECONDS") (omega arith);
      port = parsed_or-le 65535 8080 (env "LISTEN_PORT") (omega arith);
      retention = parsed_or-IsI64 (pos 60) (env "LOG_RETENTION_DAYS") (omega arith);
      token_size = parsed_or-le usize_max 10000 (env "MAX_TOKEN_SIZE") (omega arith);
      groups_count = parsed_or-le usize_max 50 (env "MAX_GROUPS_COUNT") (omega arith);
      name_length = parsed_or-le usize_max 256 (env "MAX_GROUP_NAME_LENGTH") (omega arith);
      members = whitelist_of-nonempty (env "GROUPS_WHITELIST");
    })
  where
    ok_inj : {a b : AppConfig} → ◌≡◌ {A = Result AppConfig ConfigError} (ok a) (ok b) → a ≡ b
    ok_inj q = cc

-- The key pair comes from files, a directory or nowhere as the three paths say: nowhere exactly
-- where there is no directory and the key or the certificate has no path of its own, and from a
-- directory exactly where it is the only path.
pub rsa_source_cases :
    (join : String → String → String) (c : AppConfig)
    → ((rsa_source join c ≡ missing_keys) ↔ (
        (c.rsa_key_path ≡ none)
        × ((c.rsa_private_key_path ≡ none) ⊎ (c.rsa_public_cert_path ≡ none))))
      × ((d : String)
          → (rsa_source join c ≡ auto_generate d) ↔ (
              (c.rsa_private_key_path ≡ none)
              × (c.rsa_public_cert_path ≡ none)
              × (c.rsa_key_path ≡ some d)))
unfolding rsa_source
rsa_source_cases join c = (ground arith, λ d. ground arith)
