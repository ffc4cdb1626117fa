-- ===== src/Services/Base64/Tests.antt =====
-- Runs of `base64url_decode`, and the theorems at inputs.
use jwt_exchange.Prelude.{ℕ, ◌*◌, ◌/◌, ◌≡◌, refl, some, List, [], ◌∷◌, arith, length, All}
use jwt_exchange.Str.{as_bytes}
use jwt_exchange.Services.Base64.{base64url_decode}
use jwt_exchange.Services.Base64.RoundTrip.{base64url_encode, base64url_decode-encode, IsByte}
use jwt_exchange.Services.Base64.Bounds.{letters, base64url_decode_bounds}

abbrev hello : List ℕ
hello = b'h' ∷ b'e' ∷ b'l' ∷ b'l' ∷ b'o' ∷ []

decode_hello : base64url_decode "aGVsbG8" ≡ some hello
unfolding base64url_decode as_bytes
decode_hello = refl

decode_padded : base64url_decode "aGV s\nbG8=é%%" ≡ some hello
unfolding base64url_decode as_bytes
decode_padded = refl

hello_bytes : as_bytes "aGVsbG8" ≡ base64url_encode hello
unfolding as_bytes base64url_encode
hello_bytes = refl

base64url_decode-encode_example : base64url_decode "aGVsbG8" ≡ some hello
base64url_decode-encode_example = base64url_decode-encode "aGVsbG8" hello (omega arith) hello_bytes

base64url_decode_bounds_example :
    (bytes : List ℕ) × (base64url_decode "aGVsbG8" ≡ some bytes)
    × All IsByte bytes
    × (length bytes ≡ 6 * letters (as_bytes "aGVsbG8") / 8)
base64url_decode_bounds_example = base64url_decode_bounds "aGVsbG8"
