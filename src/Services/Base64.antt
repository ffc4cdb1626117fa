-- ===== src/Services/Base64.antt =====
-- `base64url_decode` of src/services/token_service.rs. `bits` is a `u32`: shifts to the left wrap.
pub mod Bits
pub mod RoundTrip
pub mod Bounds
pub mod Tests
use jwt_exchange.Prelude.{
  ℕ, ◌+◌, ◌-◌, ◌*◌, ◌/◌, ◌%◌, ◌^◌, bit_and, bit_or, String, Bool, ◌&&◌, Option, none, some, List,
  [], ◌∷◌, ◌++◌, leb, ◌==◌, if◌then◌else◌,
}
use jwt_exchange.Str.{as_bytes}

-- What the match on a byte says: a value to take in, the end of the input, or a byte to pass over.
pub data Symbol : Type 0 where
  value : ℕ → Symbol
  stop skip : Symbol

unfoldable pub symbol : ℕ → Symbol
symbol byte =
    if leb b'A' byte && leb byte b'Z'
    then value (byte - b'A')
    else if leb b'a' byte && leb byte b'z'
    then value (byte - b'a' + 26)
    else if leb b'0' byte && leb byte b'9'
    then value (byte - b'0' + 52)
    else if byte == b'-'
    then value 62
    else if byte == b'_'
    then value 63
    else if byte == b'='
    then stop
    else skip

-- `(bits << 6) | val as u32`
abbrev pub shift_in : ℕ → ℕ → ℕ
shift_in bits val = bit_or (bits * 2 ^ 6 % 2 ^ 32) val

pub record Window : Type 0 where
  pub buf : List ℕ
  pub bits : ℕ
  pub bit_count : ℕ

-- One round with a value: the window takes six bits in, and gives a byte out once it holds eight.
unfoldable pub take_in : ℕ → Window → Window
take_in val w =
    let bits = shift_in w.bits val in
    let count = w.bit_count + 6 in
    if leb 8 count
    then record {
      buf = w.buf ++ bits / 2 ^ (count - 8) % 256 ∷ [];
      bits = bit_and bits (2 ^ (count - 8) - 1);
      bit_count = count - 8;
    }
    else record { buf = w.buf; bits = bits; bit_count = count }

unfoldable pub decode_loop : List ℕ → Window → Window
unfolding symbol take_in
decode_loop [] w = w
decode_loop (byte ∷ rest) w = elim (symbol byte) [
  | value val ↦ decode_loop rest (take_in val w)
  | stop ↦ w
  | skip ↦ decode_loop rest w
]

unfoldable pub base64url_decode : String → Option (List ℕ)
unfolding decode_loop
base64url_decode input =
    some (decode_loop (as_bytes input) (record { buf = []; bits = 0; bit_count = 0 })).buf
