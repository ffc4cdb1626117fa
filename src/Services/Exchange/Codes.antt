-- ===== src/Services/Exchange/Codes.antt =====
-- The codes and the statuses with which an exchange of src/services/token_service.rs fails, as
-- src/error.rs gives them to the client.
use jwt_exchange.Prelude.{String, ◌≡◌, Bool, true, false, List, [], ◌∷◌, any, str_eq, if◌then◌else◌}
use jwt_exchange.Error.{ServiceError, jwks, signing, other, error_code, status_code}
use jwt_exchange.Crates.{Crates}

-- The failures that are the service's own: of the key set, of the signing, and of the database.
abbrev pub is_own_failure : ServiceError → Bool
is_own_failure (jwks _) = true
is_own_failure (signing _) = true
is_own_failure (other _) = true
is_own_failure _ = false

abbrev pub exchange_codes : List String
exchange_codes =
    "malformed_token" ∷ "invalid_signature" ∷ "expired_token" ∷ "invalid_issuer"
    ∷ "invalid_audience" ∷ "unknown_kid" ∷ "replay_detected" ∷ "internal_error" ∷ []

-- The code is one that an exchange gives, it is `internal_error` exactly for an own failure, and the
-- status is 500 for these, 422 for a malformed token, and 401 for the others.
abbrev pub IsAnswered : ServiceError → Type 0
IsAnswered e =
    (any (str_eq (error_code e)) exchange_codes ≡ true)
    × (str_eq (error_code e) "internal_error" ≡ is_own_failure e)
    × (status_code e ≡ (
        if is_own_failure e
        then 500
        else if str_eq (error_code e) "malformed_token"
        then 422
        else 401))
