-- ===== src/Crates.antt =====
-- What the program takes from its dependencies (jsonwebtoken, serde_json, sha2, hex, chrono,
-- reqwest), as a record of types and functions. Nothing is assumed of them here.
pub mod Sample
use jwt_exchange.Prelude.{ℕ, String, Bool, Option, List}
use jwt_exchange.Prelude.Int.{ℤ}
use jwt_exchange.Result.{Result}

-- `InboundClaims` of src/services/token_service.rs, over the type of JSON values.
pub record InboundClaims (Value : Type 0) : Type 0 where
  pub sub : Option String
  pub iss : Option String
  pub aud : Option Value
  pub exp : Option ℤ
  pub iat : Option ℤ
  pub name : Option String
  pub email : Option String
  pub jti : Option String

-- `QlikClaims` of src/services/token_service.rs.
pub record QlikClaims : Type 0 where
  pub userid : String
  pub userdirectory : Option String
  pub name : Option String
  pub email : Option String
  pub groups : Option (List String)
  pub iss : String
  pub aud : String
  pub exp : ℤ
  pub nbf : ℤ
  pub iat : ℤ
  pub jti : String

-- `jsonwebtoken::Validation`, as far as the program sets it.
pub record Validation : Type 0 where
  pub issuer : Option (List String)
  pub leeway : ℕ
  pub audience : Option (List String)
  pub validate_aud : Bool

-- `jsonwebtoken::errors::ErrorKind`: the kinds that the program names, and all others.
pub data ErrorKind : Type 0 where
  expired_signature invalid_issuer invalid_audience : ErrorKind
  invalid_signature invalid_token another : ErrorKind

-- A response of `reqwest`. A header that is there and whose value is no visible ASCII is `some none`.
pub record Response : Type 0 where
  pub status : ℕ
  pub header : String → Option (Option String)
  pub body : String

-- `GET url`, with `If-None-Match` where a tag is given; an error is its text.
abbrev pub Client : Type 0
Client = String → Option String → Result Response String

pub record Crates : Type 1 where
  pub Value : Type 0
  pub from_slice : List ℕ → Result Value String
  pub from_text : String → Result Value String
  pub member : Value → String → Option Value
  pub as_str : Value → Option String
  pub as_array : Value → Option (List Value)
  pub Jwk : Type 0
  pub key_id : Jwk → Option String
  pub jwk_set : String → Result (List Jwk) String
  pub DecodingKey : Type 0
  pub from_jwk : Jwk → Result DecodingKey String
  pub EncodingKey : Type 0
  pub new_validation : Validation
  -- `decode`, at a time of the clock.
  pub decode : ℤ → String → DecodingKey → Validation → Result (InboundClaims Value) ErrorKind
  pub encode : QlikClaims → EncodingKey → Result String String
  pub sha256_hex : List ℕ → String
  pub rfc3339 : ℤ → String
  pub status_text : ℕ → String
