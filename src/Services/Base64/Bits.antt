-- ===== src/Services/Base64/Bits.antt =====
-- The bit operations of the window as arithmetic, over the values that the window can hold.
use Prim.Native.Nat.{zero, suc}
use jwt_exchange.Prelude.{
  ℕ, ◌+◌, ◌-◌, ◌*◌, ◌/◌, ◌%◌, ◌^◌, ◌<◌, bit_and, ◌≡◌, refl, Bool, true, ◌&&◌, [], ◌∷◌, ◌++◌, arith,
  ◌==◌,
}
use jwt_exchange.Services.Base64.{Window, shift_in, take_in}

-- A test on each of the numbers under a bound, the largest last.
tabulated : (ℕ → Bool) → ℕ → Bool
tabulated test zero = true
tabulated test (suc bound) = tabulated test bound && test bound

tabulated-lookup :
    (test : ℕ → Bool) (bound entry : ℕ)
    → entry < bound
    → tabulated test bound ≡ true
    → test entry ≡ true
unfolding tabulated
tabulated-lookup test zero entry inside all = absurd (omega arith)
tabulated-lookup test (suc bound) entry inside all =
    let lower = tabulated-lookup test bound entry in ground arith

or_row : ℕ → Bool
unfolding tabulated
or_row b = tabulated (λ v. shift_in b v == b * 64 + v) 64

or_table : tabulated or_row 64 ≡ true
unfolding tabulated or_row
or_table = refl

-- Shifting six bits into a window of at most six appends them: nothing wraps and nothing overlaps.
pub shift_in-eq-add : (b v : ℕ) → b < 64 → v < 64 → shift_in b v ≡ b * 64 + v
unfolding or_row
shift_in-eq-add b v h k = ground (
  arith,
  tabulated-lookup (λ v. shift_in b v == b * 64 + v) 64 v k
      (tabulated-lookup or_row 64 b h or_table),
)

low_table : (k : ℕ) → ℕ → Bool
low_table k b = bit_and b (2 ^ k - 1) == b % 2 ^ k

and_table :
    (k : ℕ)
    → tabulated (low_table k) 4096 ≡ true
    → (b : ℕ) → b < 4096
    → bit_and b (2 ^ k - 1) ≡ b % 2 ^ k
unfolding low_table
and_table k t b h =
    ground (arith, tabulated-lookup (λ b. bit_and b (2 ^ k - 1) == b % 2 ^ k) 4096 b h t)

table_0 : tabulated (low_table 0) 4096 ≡ true
unfolding tabulated low_table
table_0 = refl

table_2 : tabulated (low_table 2) 4096 ≡ true
unfolding tabulated low_table
table_2 = refl

table_4 : tabulated (low_table 4) 4096 ≡ true
unfolding tabulated low_table
table_4 = refl

-- What the window may hold between two bytes of the input.
pub data IsWindow (w : Window) : Type 0 where
  empty : w.bit_count ≡ 0 → w.bits ≡ 0 → IsWindow w
  two : w.bit_count ≡ 2 → w.bits < 4 → IsWindow w
  four : w.bit_count ≡ 4 → w.bits < 16 → IsWindow w
  six : w.bit_count ≡ 6 → w.bits < 64 → IsWindow w

module _ (val : ℕ) (h : val < 64) (w : Window) where
  pub take_in_empty :
      w.bit_count ≡ 0
      → w.bits ≡ 0
      → take_in val w ≡ record { buf = w.buf; bits = val; bit_count = 6 }
  unfolding take_in
  take_in_empty c b = ground (arith, shift_in-eq-add 0 val (omega arith) h)

  pub take_in_two :
      w.bit_count ≡ 2
      → w.bits < 4
      → take_in val w ≡ record { buf = w.buf ++ (w.bits * 64 + val) ∷ []; bits = 0; bit_count = 0 }
  unfolding take_in
  take_in_two c b =
      rw (c, shift_in-eq-add w.bits val (omega arith) h)
        (ground (arith, and_table 0 table_0 (w.bits * 64 + val) (omega arith)))

  pub take_in_four :
      w.bit_count ≡ 4
      → w.bits < 16
      → take_in val w ≡ record {
        buf = w.buf ++ ((w.bits * 64 + val) / 4) ∷ [];
        bits = (w.bits * 64 + val) % 4;
        bit_count = 2;
      }
  unfolding take_in
  take_in_four c b =
      rw (c, shift_in-eq-add w.bits val (omega arith) h)
        (ground (arith, and_table 2 table_2 (w.bits * 64 + val) (omega arith)))

  pub take_in_six :
      w.bit_count ≡ 6
      → w.bits < 64
      → take_in val w ≡ record {
        buf = w.buf ++ ((w.bits * 64 + val) / 16) ∷ [];
        bits = (w.bits * 64 + val) % 16;
        bit_count = 4;
      }
  unfolding take_in
  take_in_six c b =
      rw (c, shift_in-eq-add w.bits val (omega arith) h)
        (ground (arith, and_table 4 table_4 (w.bits * 64 + val) (omega arith)))
