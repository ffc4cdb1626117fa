-- ===== src/Str/Parse.antt =====
-- `FromStr` for the integer types that the configuration reads.
use jwt_exchange.Prelude.{
  ℕ, ◌+◌, ◌-◌, ◌≤◌, ◌≡◌, arith, ◌*◌, ◌^◌, code, String, Option, none, some, leb, ◌==◌,
  if◌then◌else◌, ◌&&◌,
}
use jwt_exchange.Prelude.Int.{ℤ, pos, negsuc, IsI64}

-- The value of a text of decimal digits; `none` for another character.
digits : ℕ → String → Option ℕ
digits acc String.[] = some acc
digits acc (String.◌∷◌ c s) =
    let rest = digits (acc * 10 + (code c - 48)) s in
    if leb 48 (code c) && leb (code c) 57 then rest else none

magnitude : String → Option ℕ
unfolding digits
magnitude String.[] = none
magnitude (String.◌∷◌ c s) = digits 0 (String.◌∷◌ c s)

abbrev within : ℕ → Option ℕ → Option ℕ
within most none = none
within most (some n) = if leb n most then some n else none

-- `s.parse()` into an unsigned type with the largest value `most`: a sign `+` may stand in front.
unfoldable pub parse_unsigned : ℕ → String → Option ℕ
unfolding magnitude
parse_unsigned most String.[] = none
parse_unsigned most (String.◌∷◌ c s) =
    within most (if code c == b'+' then magnitude s else magnitude (String.◌∷◌ c s))

abbrev negated : Option ℕ → Option ℤ
negated none = none
negated (some n) =
    if n == 0 then some (pos 0) else if leb n (2 ^ 63) then some (negsuc (n - 1)) else none

abbrev positive : Option ℕ → Option ℤ
positive none = none
positive (some n) = if leb n (2 ^ 63 - 1) then some (pos n) else none

-- `s.parse::<i64>()`
unfoldable pub parse_i64 : String → Option ℤ
unfolding magnitude
parse_i64 String.[] = none
parse_i64 (String.◌∷◌ c s) =
    if code c == b'-'
    then negated (magnitude s)
    else if code c == b'+'
    then positive (magnitude s)
    else positive (magnitude (String.◌∷◌ c s))

pub parse_unsigned-le : (most : ℕ) (s : String) (n : ℕ) → parse_unsigned most s ≡ some n → n ≤ most
unfolding parse_unsigned
parse_unsigned-le most String.[] n h = cc
parse_unsigned-le most (String.◌∷◌ c s) n h =
    within-le (if code c == b'+' then magnitude s else magnitude (String.◌∷◌ c s)) h
  where
    within-le : (o : Option ℕ) → within most o ≡ some n → n ≤ most
    within-le none e = cc
    within-le (some m) e = ground arith

negated-IsI64 : (o : Option ℕ) (n : ℤ) → negated o ≡ some n → IsI64 n
negated-IsI64 none n h = cc
negated-IsI64 (some m) n h = ground arith

positive-IsI64 : (o : Option ℕ) (n : ℤ) → positive o ≡ some n → IsI64 n
positive-IsI64 none n h = cc
positive-IsI64 (some m) n h = ground arith

pub parse_i64-IsI64 : (s : String) (n : ℤ) → parse_i64 s ≡ some n → IsI64 n
unfolding parse_i64
parse_i64-IsI64 String.[] n h = cc
parse_i64-IsI64 (String.◌∷◌ c s) n h = ground (
  arith,
  negated-IsI64 (magnitude s) n,
  positive-IsI64 (magnitude s) n,
  positive-IsI64 (magnitude (String.◌∷◌ c s)) n,
)
