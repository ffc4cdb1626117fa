-- ===== src/Services/Base64/RoundTrip.antt =====
-- The unpadded encoding of RFC 4648, section 5, and `base64url_decode` on it.
use mathlib.Core.Path.{ap₂}
use mathlib.Core.List.{append_assoc, append-nil}
use jwt_exchange.Prelude.{
  ℕ, ◌+◌, ◌-◌, ◌*◌, ◌/◌, ◌%◌, ◌<◌, String, ◌≡◌, refl, sym, ap, ◌∙◌, some, List, [], ◌∷◌, ◌++◌,
  arith, ltb, ◌==◌, if◌then◌else◌, All,
}
use jwt_exchange.Str.{as_bytes}
use jwt_exchange.Services.Base64.{value, symbol, Window, take_in, decode_loop, base64url_decode}
use jwt_exchange.Services.Base64.Bits.{take_in_empty, take_in_two, take_in_four, take_in_six}

-- The letter of the alphabet for a value below 64.
unfoldable pub letter : ℕ → ℕ
letter v =
    if ltb v 26
    then v + b'A'
    else if ltb v 52
    then v - 26 + b'a'
    else if ltb v 62
    then v - 52 + b'0'
    else if v == 62
    then b'-'
    else b'_'

unfoldable pub base64url_encode : List ℕ → List ℕ
unfolding letter
base64url_encode [] = []
base64url_encode (a ∷ []) = letter (a / 4) ∷ letter (a % 4 * 16) ∷ []
base64url_encode (a ∷ b ∷ []) =
    letter (a / 4) ∷ letter (a % 4 * 16 + b / 16) ∷ letter (b % 16 * 4) ∷ []
base64url_encode (a ∷ b ∷ c ∷ rest) =
    letter (a / 4)
    ∷ letter (a % 4 * 16 + b / 16)
    ∷ letter (b % 16 * 4 + c / 64)
    ∷ letter (c % 64)
    ∷ base64url_encode rest

abbrev pub IsByte : ℕ → Type 0
IsByte b = b < 256

symbol-letter : (v : ℕ) → v < 64 → symbol (letter v) ≡ value v
unfolding symbol letter
symbol-letter v h = ground arith

decode-letter :
    (v : ℕ) (rest : List ℕ) (w : Window)
    → v < 64
    → decode_loop (letter v ∷ rest) w ≡ decode_loop rest (take_in v w)
unfolding decode_loop
decode-letter v rest w h = rw (symbol-letter v h, decode_loop)

abbrev window : List ℕ → ℕ → ℕ → Window
window buf bits count = record { buf = buf; bits = bits; bit_count = count }

-- Four letters, taken in from an empty window, are three bytes.
decode_first :
    (v : ℕ) (rest buf : List ℕ)
    → v < 64
    → decode_loop (letter v ∷ rest) (window buf 0 0) ≡ decode_loop rest (window buf v 6)
decode_first v rest buf h =
    decode-letter v rest (window buf 0 0) h
    ∙ ap (decode_loop rest) (take_in_empty v h (window buf 0 0) refl refl)

-- Two letters from an empty window give the first byte, and keep four bits of the second.
decode_pair :
    (a y : ℕ) (rest buf : List ℕ)
    → a < 256
    → y < 16
    → decode_loop (letter (a / 4) ∷ letter (a % 4 * 16 + y) ∷ rest) (window buf 0 0)
      ≡ decode_loop rest (window (buf ++ a ∷ []) y 4)
decode_pair a y rest buf h k =
    let low : a % 4 * 16 + y < 64 = omega arith in
    let high : a / 4 < 64 = omega arith in
    let byte : (a / 4 * 64 + (a % 4 * 16 + y)) / 16 ≡ a = omega arith in
    let left : (a / 4 * 64 + (a % 4 * 16 + y)) % 16 ≡ y = omega arith in
    decode_first (a / 4) (letter (a % 4 * 16 + y) ∷ rest) buf high
    ∙ decode-letter (a % 4 * 16 + y) rest (window buf (a / 4) 6) low
    ∙ ap (decode_loop rest) (take_in_six (a % 4 * 16 + y) low (window buf (a / 4) 6) refl high)
    ∙ ap₂ (λ x z. decode_loop rest (window (buf ++ x ∷ []) z 4)) byte left

-- The third letter gives the second byte, and keeps two bits of the third.
decode_third :
    (b y : ℕ) (rest buf : List ℕ)
    → b < 256
    → y < 4
    → decode_loop (letter (b % 16 * 4 + y) ∷ rest) (window buf (b / 16) 4)
      ≡ decode_loop rest (window (buf ++ b ∷ []) y 2)
decode_third b y rest buf h k =
    let low : b % 16 * 4 + y < 64 = omega arith in
    let byte : (b / 16 * 64 + (b % 16 * 4 + y)) / 4 ≡ b = omega arith in
    let left : (b / 16 * 64 + (b % 16 * 4 + y)) % 4 ≡ y = omega arith in
    decode-letter (b % 16 * 4 + y) rest (window buf (b / 16) 4) low
    ∙ ap (decode_loop rest)
        (take_in_four (b % 16 * 4 + y) low (window buf (b / 16) 4) refl (omega arith))
    ∙ ap₂ (λ x z. decode_loop rest (window (buf ++ x ∷ []) z 2)) byte left

-- The fourth letter gives the third byte, and empties the window.
decode_fourth :
    (c : ℕ) (rest buf : List ℕ)
    → c < 256
    → decode_loop (letter (c % 64) ∷ rest) (window buf (c / 64) 2)
      ≡ decode_loop rest (window (buf ++ c ∷ []) 0 0)
decode_fourth c rest buf h =
    let low : c % 64 < 64 = omega arith in
    let byte : c / 64 * 64 + c % 64 ≡ c = omega arith in
    decode-letter (c % 64) rest (window buf (c / 64) 2) low
    ∙ ap (decode_loop rest) (take_in_two (c % 64) low (window buf (c / 64) 2) refl (omega arith))
    ∙ ap (λ x. decode_loop rest (window (buf ++ x ∷ []) 0 0)) byte

decode_triple :
    (a b c : ℕ) (rest buf : List ℕ)
    → a < 256
    → b < 256
    → c < 256
    → decode_loop
        (letter (a / 4)
          ∷ letter (a % 4 * 16 + b / 16)
          ∷ letter (b % 16 * 4 + c / 64)
          ∷ letter (c % 64)
          ∷ rest)
        (window buf 0 0)
      ≡ decode_loop rest (window (((buf ++ a ∷ []) ++ b ∷ []) ++ c ∷ []) 0 0)
decode_triple a b c rest buf p q r =
    decode_pair a (b / 16) (letter (b % 16 * 4 + c / 64) ∷ letter (c % 64) ∷ rest) buf p
      (omega arith)
    ∙ decode_third b (c / 64) (letter (c % 64) ∷ rest) (buf ++ a ∷ []) q (omega arith)
    ∙ decode_fourth c rest ((buf ++ a ∷ []) ++ b ∷ []) r

decode_one :
    (a : ℕ) (buf : List ℕ)
    → a < 256
    → (decode_loop (letter (a / 4) ∷ letter (a % 4 * 16) ∷ []) (window buf 0 0)).buf ≡ buf ++ a ∷ []
unfolding decode_loop
decode_one a buf h =
    ap (λ v. (decode_loop (letter (a / 4) ∷ letter v ∷ []) (window buf 0 0)).buf) (omega arith)
    ∙ ap (λ (w : Window). w.buf) (decode_pair a 0 [] buf h (omega arith))

decode_two :
    (a b : ℕ) (buf : List ℕ)
    → a < 256
    → b < 256
    → (decode_loop
        (letter (a / 4) ∷ letter (a % 4 * 16 + b / 16) ∷ letter (b % 16 * 4) ∷ [])
        (window buf 0 0)).buf
      ≡ (buf ++ a ∷ []) ++ b ∷ []
unfolding decode_loop
decode_two a b buf h k =
    ap (λ (w : Window). w.buf)
      (decode_pair a (b / 16) (letter (b % 16 * 4) ∷ []) buf h (omega arith))
    ∙ ap (λ v. (decode_loop (letter v ∷ []) (window (buf ++ a ∷ []) (b / 16) 4)).buf) (omega arith)
    ∙ ap (λ (w : Window). w.buf) (decode_third b 0 [] (buf ++ a ∷ []) k (omega arith))

decode_loop-encode :
    (bytes buf : List ℕ)
    → All IsByte bytes
    → (decode_loop (base64url_encode bytes) (window buf 0 0)).buf ≡ buf ++ bytes
unfolding base64url_encode
decode_loop-encode [] buf h = unfold decode_loop in sym (append-nil buf)
decode_loop-encode (a ∷ []) buf h = decode_one a buf h.0
decode_loop-encode (a ∷ b ∷ []) buf h =
    decode_two a b buf h.0 h.1.0 ∙ append_assoc buf (a ∷ []) (b ∷ [])
decode_loop-encode (a ∷ b ∷ c ∷ rest) buf (p, (q, (r, h))) =
    ap (λ (w : Window). w.buf) (decode_triple a b c (base64url_encode rest) buf p q r)
    ∙ decode_loop-encode rest (((buf ++ a ∷ []) ++ b ∷ []) ++ c ∷ []) h
    ∙ simp append_assoc

-- A text whose bytes are the unpadded base64url encoding of some bytes decodes to those bytes.
pub base64url_decode-encode :
    (input : String) (bytes : List ℕ)
    → All IsByte bytes
    → as_bytes input ≡ base64url_encode bytes
    → base64url_decode input ≡ some bytes
unfolding base64url_decode
base64url_decode-encode input bytes h e = rw e (ap (λ b. some b) (decode_loop-encode bytes [] h))
