-- ===== src/Services/Kid.antt =====
-- `extract_kid` of src/services/token_service.rs.
pub mod Laws
pub mod Tests
use mathlib.Core.Option.{bind}
use jwt_exchange.Prelude.{String, Option, none, some, List, [], ◌∷◌}
use jwt_exchange.Result.{Result, ok, err, map_err, ok_or, ◌>>=◌}
use jwt_exchange.Error.{ServiceError, malformed_token}
use jwt_exchange.Str.{split}
use jwt_exchange.Crates.{Crates}
use jwt_exchange.Services.Base64.{base64url_decode}

module _ (X : Crates) where
  open X use {from_slice, member, as_str}

  -- What is done with the first of the three parts.
  unfoldable pub kid_of_header : String → Result String ServiceError
  kid_of_header part = do
    bytes ← ok_or (base64url_decode part) malformed_token
    header ← map_err (λ _. malformed_token) (from_slice bytes)
    ok_or (bind (member header "kid") as_str) malformed_token

  abbrev pub kid_of_parts : List String → Result String ServiceError
  kid_of_parts (header ∷ payload ∷ signature ∷ []) = kid_of_header header
  kid_of_parts _ = err malformed_token

  unfoldable pub extract_kid : String → Result String ServiceError
  unfolding split
  extract_kid token = kid_of_parts (split b'.' token)
