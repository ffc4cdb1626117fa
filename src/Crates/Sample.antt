-- ===== src/Crates/Sample.antt =====
-- One choice of the dependencies' functions, on which the theorems are tried: every JSON value is a
-- text, and a key is its own identifier.
use jwt_exchange.Prelude.{String, true, none, some, [], ◌∷◌, is_empty, str_eq, if◌then◌else◌}
use jwt_exchange.Prelude.Int.{pos}
use jwt_exchange.Result.{ok, err}
use jwt_exchange.Crates.{Crates, InboundClaims, ErrorKind, Client}

abbrev pub sample_claims : InboundClaims String
sample_claims = record {
  sub = some "alice";
  iss = some "https://idp";
  aud = some "qlik";
  exp = some (pos 5000);
  iat = some (pos 1000);
  name = some "Alice";
  email = none;
  jti = some "jti-1";
}

abbrev pub sample : Crates
sample = record {
  Value = String;
  from_slice = λ bytes. if is_empty bytes then err "EOF while parsing a value" else ok "header";
  from_text = λ t. ok t;
  member = λ v name.
      if str_eq name "kid"
      then some "k1"
      else if str_eq name "jwks_uri"
      then some "https://idp/keys"
      else none;
  as_str = λ v. some v;
  as_array = λ v. none;
  Jwk = String;
  key_id = λ k. some k;
  jwk_set = λ body. ok ("k1" ∷ []);
  DecodingKey = String;
  from_jwk = λ k. ok k;
  EncodingKey = String;
  new_validation = record { issuer = none; leeway = 60; audience = none; validate_aud = true };
  decode = λ now token key v.
      if str_eq key "k1" then ok sample_claims else err ErrorKind.invalid_signature;
  encode = λ claims key. ok "minted";
  sha256_hex = λ bytes. "hash";
  rfc3339 = λ seconds. "1970-01-01T00:33:20Z";
  status_text = λ status. "503 Service Unavailable";
}

-- A network that answers every request with a set of keys, and one that never answers.
abbrev pub answering : Client
answering uri etag = ok (record { status = 200; header = λ name. none; body = "{}" })

abbrev pub silent : Client
silent uri etag = err "timed out"

abbrev pub not_modified : Client
not_modified uri etag = ok (record { status = 304; header = λ name. none; body = "" })
