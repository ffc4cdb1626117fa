-- ===== src/Config/Tests.antt =====
-- The configuration of an environment, and the theorems at it.
use Prim.Native.String.{◌++◌ as concat}
use jwt_exchange.Prelude.{
  String, ◌≡◌, ◌≢◌, ◌↔◌, ◌⊎◌, refl, true, false, none, some, str_eq, if◌then◌else◌, [], ◌∷◌,
}
use jwt_exchange.Result.{ok}
use jwt_exchange.Str.{trim, split, prepend, trim_start, trim_end, is_whitespace}
use jwt_exchange.Config.{AppConfig, Env, flag, checked, configured, from_env, whitelist_of}
use jwt_exchange.Config.Parsing.{IsValid, from_env-eq-ok_iff, from_env-IsValid}

abbrev env : Env
env name =
    if str_eq name "INBOUND_ISSUER_URI"
    then some "https://idp"
    else if str_eq name "INBOUND_EXPECTED_AUDIENCE"
    then some "qlik"
    else if str_eq name "QLIK_AUDIENCE"
    then some "qlik.api"
    else if str_eq name "RSA_KEY_PATH"
    then some "./certs"
    else none

abbrev config : AppConfig
config = configured env ("https://idp", "qlik.api")

accepted : from_env env ≡ ok config
unfolding from_env checked flag
accepted = refl

members : whitelist_of (some " g1, g2 ") ≡ "g1" ∷ "g2" ∷ []
unfolding whitelist_of trim split prepend trim_start trim_end is_whitespace
members = refl

from_env-eq-ok_iff_example : ((c : AppConfig) × (from_env env ≡ ok c)) ↔ (
    (env "INBOUND_ISSUER_URI" ≢ none)
    × (env "QLIK_AUDIENCE" ≢ none)
    × ((flag (env "INBOUND_AUDIENCE_VALIDATION") true ≡ false)
        ⊎ (env "INBOUND_EXPECTED_AUDIENCE" ≢ none)))
from_env-eq-ok_iff_example = from_env-eq-ok_iff env

from_env-IsValid_example : IsValid config
from_env-IsValid_example = from_env-IsValid env config accepted

abbrev join : String → String → String
join a b = concat a (concat "/" b)
