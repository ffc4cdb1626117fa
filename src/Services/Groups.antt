-- ===== src/Services/Groups.antt =====
-- `filter_groups` of src/services/token_service.rs. The whitelist is a set: the list of its members.
pub mod Laws
pub mod Tests
use jwt_exchange.Prelude.{
  ℕ, String, len, Option, none, some, List, [], ◌∷◌, length, is_empty, any, keep, str_eq, ltb,
  if◌then◌else◌, Bool,
}
use jwt_exchange.Result.{Result, ok, err}
use jwt_exchange.Error.{ServiceError, malformed_token}

-- `whitelist.contains(g)`
abbrev pub contains : List String → String → Bool
contains whitelist g = any (λ w. str_eq w g) whitelist

abbrev filled : List String → Option (List String)
filled [] = none
filled (g ∷ gs) = some (g ∷ gs)

unfoldable pub filter_groups :
    Option (List String) → List String → ℕ → ℕ → Result (Option (List String)) ServiceError
filter_groups none whitelist max_count max_name_length = ok none
filter_groups (some groups) whitelist max_count max_name_length =
    if is_empty whitelist
    then ok none
    else if ltb max_count (length groups)
    then err malformed_token
    else if any (λ g. ltb max_name_length (len g)) groups
    then err malformed_token
    else ok (filled (keep (contains whitelist) groups))
