-- ===== src/Services/Base64/Bounds.antt =====
-- `base64url_decode` on any text: its bytes and their number.
use mathlib.Core.Path.{subst}
use jwt_exchange.Prelude.{
  ℕ, ◌+◌, ◌*◌, ◌/◌, ◌<◌, String, ◌≡◌, refl, sym, some, List, [], ◌∷◌, ◌++◌, arith, length,
  length-append, All, All-append, ◌⊎◌, inl, inr,
}
use jwt_exchange.Str.{as_bytes}
use jwt_exchange.Services.Base64.{
  Symbol, value, stop, skip, symbol, Window, take_in, decode_loop, base64url_decode,
}
use jwt_exchange.Services.Base64.Bits.{
  IsWindow, empty, two, four, six, take_in_empty, take_in_two, take_in_four, take_in_six,
}
use jwt_exchange.Services.Base64.RoundTrip.{IsByte}

-- The letters of the alphabet that stand before the first padding sign.
unfoldable pub letters : List ℕ → ℕ
letters [] = 0
letters (b ∷ rest) = elim (symbol b) [
  | value val ↦ letters rest + 1
  | stop ↦ 0
  | skip ↦ letters rest
]

record Good (n : ℕ) (w : Window) : Type 0 where
  window : IsWindow w
  bytes : All IsByte w.buf
  bits : 8 * length w.buf + w.bit_count ≡ 6 * n

symbol-lt : (b v : ℕ) → symbol b ≡ value v → v < 64
unfolding symbol
symbol-lt b v h = ground arith

-- A byte that leaves the window is appended, and counts eight bits.
pushed :
    (n k b c : ℕ) (w : Window)
    → All IsByte w.buf
    → 8 * length w.buf + k ≡ 6 * n
    → b < 256
    → 8 + c ≡ k + 6
    → All IsByte (w.buf ++ b ∷ []) × (8 * length (w.buf ++ b ∷ []) + c ≡ 6 * (n + 1))
pushed n k b c w h e lt f =
    (All-append IsByte w.buf (b ∷ []) h (lt, tt), omega (arith, length-append w.buf (b ∷ [])))

take_in-Good : (n v : ℕ) (w : Window) → v < 64 → Good n w → Good (n + 1) (take_in v w)
take_in-Good n v w h g = step g.window
  where
    step : IsWindow w → Good (n + 1) (take_in v w)
    step (empty c b) =
        subst (Good (n + 1)) (sym (take_in_empty v h w c b))
          (record { window = six refl h; bytes = g.bytes; bits = omega (arith, g.bits, c) })
    step (two c b) =
        let (p, q) =
          pushed n 2 (w.bits * 64 + v) 0 w g.bytes (omega (arith, g.bits, c)) (omega arith) refl in
        subst (Good (n + 1)) (sym (take_in_two v h w c b))
          (record { window = empty refl refl; bytes = p; bits = q })
    step (four c b) =
        let (p, q) =
          pushed n 4 ((w.bits * 64 + v) / 4) 2 w g.bytes (omega (arith, g.bits, c)) (omega arith)
            refl in
        subst (Good (n + 1)) (sym (take_in_four v h w c b))
          (record { window = two refl (omega arith); bytes = p; bits = q })
    step (six c b) =
        let (p, q) =
          pushed n 6 ((w.bits * 64 + v) / 16) 4 w g.bytes (omega (arith, g.bits, c)) (omega arith)
            refl in
        subst (Good (n + 1)) (sym (take_in_six v h w c b))
          (record { window = four refl (omega arith); bytes = p; bits = q })

Symbol-cases : (b : ℕ) → ((v : ℕ) × (symbol b ≡ value v)) ⊎ ((symbol b ≡ stop) ⊎ (symbol b ≡ skip))
Symbol-cases b = go (symbol b) refl
  where
    go :
        (s : Symbol)
        → symbol b ≡ s
        → ((v : ℕ) × (symbol b ≡ value v)) ⊎ ((symbol b ≡ stop) ⊎ (symbol b ≡ skip))
    go (value v) e = inl (v, e)
    go stop e = inr (inl e)
    go skip e = inr (inr e)

decode_loop-Good :
    (input : List ℕ) (n : ℕ) (w : Window)
    → Good n w
    → Good (n + letters input) (decode_loop input w)
unfolding decode_loop letters
decode_loop-Good [] n w g = subst (λ k. Good k w) (omega arith) g
decode_loop-Good (b ∷ rest) n w g = elim (Symbol-cases b) [
  | inl (v, e) ↦
      rw (e, decode_loop, letters)
        (subst (λ k. Good k (decode_loop rest (take_in v w))) (omega arith)
          (decode_loop-Good rest (n + 1) (take_in v w) (take_in-Good n v w (symbol-lt b v e) g)))
  | inr (inl e) ↦ rw (e, decode_loop, letters) (subst (λ k. Good k w) (omega arith) g)
  | inr (inr e) ↦ rw (e, decode_loop, letters) (decode_loop-Good rest n w g)
]

count-of_bits : (l n c : ℕ) → 8 * l + c ≡ 6 * n → c < 8 → l ≡ 6 * n / 8
count-of_bits l n c e h = omega arith

IsWindow-lt : (w : Window) → IsWindow w → w.bit_count < 8
IsWindow-lt w (empty c b) = omega arith
IsWindow-lt w (two c b) = omega arith
IsWindow-lt w (four c b) = omega arith
IsWindow-lt w (six c b) = omega arith

-- Decoding never fails. It gives values below 256, one for each eight whole bits of the letters
-- that stand before the first padding sign; what is no letter counts nothing.
pub base64url_decode_bounds :
    (input : String)
    → (bytes : List ℕ) × (base64url_decode input ≡ some bytes)
      × All IsByte bytes
      × (length bytes ≡ 6 * letters (as_bytes input) / 8)
unfolding base64url_decode
base64url_decode_bounds input =
    let g : Good (0 + letters (as_bytes input))
        (decode_loop (as_bytes input) (record { buf = []; bits = 0; bit_count = 0 })) =
      decode_loop-Good (as_bytes input) 0 (record { buf = []; bits = 0; bit_count = 0 })
        (record { window = empty refl refl; bytes = tt; bits = refl }) in
    (
      (decode_loop (as_bytes input) (record { buf = []; bits = 0; bit_count = 0 })).buf,
      refl,
      g.bytes,
      omega (arith, g.bits, IsWindow-lt _ g.window),
    )
