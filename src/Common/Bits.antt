-- ===== src/Common/Bits.antt =====
-- The bit operations that the code uses, as arithmetic.
use Prim.Native.Nat.{
  ℕ, zero, suc, ◌+◌, ◌*◌, ◌/◌, ◌%◌, ◌≤◌, ◌<◌, max, min, bit_or, bit_and, digits, bitwise,
  bit_or-bitwise, bit_and-bitwise,
}
use mathlib.Core.Path.{◌≡◌, refl, sym, ap, ◌∙◌}
use mathlib.Core.Bool.{Bool, true, ◌&&◌}
use native.Mathlib.Omega.{arith}
use ldap.Common.Tests.{◌==◌, ==_iff}

-- A test holds of every number below a bound.
unfoldable pub every_below : ℕ → (ℕ → Bool) → Bool
every_below zero test = true
every_below (suc top) test = every_below top test && test top

pub every_below-lookup :
    (bound : ℕ) (test : ℕ → Bool) (k : ℕ)
    → every_below bound test ≡ true
    → k < bound
    → test k ≡ true
unfolding every_below
every_below-lookup zero test k all small = absurd (omega arith)
every_below-lookup (suc top) test k all small = ground (arith, every_below-lookup top test k)

module _ (rest : ℕ → ℕ) (op : ℕ → ℕ → ℕ) where
  digits_none : (count b : ℕ) → digits rest op count 0 b ≡ rest b
  digits_none zero b = refl
  digits_none (suc count) b = refl

  -- Any count of digits that is not too small gives the same.
  digits_count :
      (count other a b : ℕ)
      → a ≤ count
      → a ≤ other
      → digits rest op count a b ≡ digits rest op other a b
  digits_count count other zero b h k = digits_none count b ∙ sym (digits_none other b)
  digits_count zero other (suc a) b h k = absurd (omega arith)
  digits_count (suc count) zero (suc a) b h k = absurd (omega arith)
  digits_count (suc count) (suc other) (suc a) b h k =
      ap (λ d. d * 2 + op (suc a % 2) (b % 2))
        (digits_count count other (suc a / 2) (b / 2) (omega arith) (omega arith))

  -- The lowest digit of a number that has one.
  bitwise_lowest :
      (a b : ℕ)
      → bitwise rest op (suc a) b ≡ bitwise rest op (suc a / 2) (b / 2) * 2 + op (suc a % 2) (b % 2)
  bitwise_lowest a b =
      ap (λ d. d * 2 + op (suc a % 2) (b % 2))
        (digits_count a (suc a / 2) (suc a / 2) (b / 2) (omega arith) (omega arith))

zero-bit_or : (b : ℕ) → bit_or 0 b ≡ b
zero-bit_or b = bit_or-bitwise 0 b

pub bit_or_step : (a b : ℕ) → bit_or a b ≡ bit_or (a / 2) (b / 2) * 2 + max (a % 2) (b % 2)
bit_or_step zero b = omega (arith, zero-bit_or b, zero-bit_or (b / 2))
bit_or_step (suc a) b =
    bit_or-bitwise (suc a) b
    ∙ bitwise_lowest (λ b. b) max a b
    ∙ ap (λ d. d * 2 + max (suc a % 2) (b % 2)) (sym (bit_or-bitwise (suc a / 2) (b / 2)))

bit_or-zero_fuel : (n a : ℕ) → a ≤ n → bit_or a 0 ≡ a
bit_or-zero_fuel n zero h = zero-bit_or 0
bit_or-zero_fuel zero (suc a) h = absurd (omega arith)
bit_or-zero_fuel (suc n) (suc a) h =
    omega (arith, bit_or_step (suc a) 0, bit_or-zero_fuel n (suc a / 2) (omega arith))

bit_or-zero : (a : ℕ) → bit_or a 0 ≡ a
bit_or-zero a = bit_or-zero_fuel a a (omega arith)

-- A shift left by one bit leaves room for one bit.
bit_or_double : (a b : ℕ) → bit_or (a * 2) b ≡ bit_or a (b / 2) * 2 + b % 2
bit_or_double a b =
    rw (bit_or_step (a * 2) b, (let e : a * 2 / 2 ≡ a = omega arith in e)) (omega arith)

bit_or_eight : (a b : ℕ) → bit_or (a * 16) b ≡ bit_or a (b / 16) * 16 + b % 16
bit_or_eight a b =
    let e : a * 16 ≡ a * 2 * 2 * 2 * 2 = omega arith in
    let d : b / 2 / 2 / 2 / 2 ≡ b / 16 = omega arith in
    rw (e, bit_or_double, bit_or_double, bit_or_double, bit_or_double, d) (omega arith)

-- `(a << 8) | b` for a byte `b`.
pub bit_or_byte : (a b : ℕ) → b < 256 → bit_or (a * 256) b ≡ a * 256 + b
bit_or_byte a b h =
    let e : a * 256 ≡ a * 16 * 16 = omega arith in
    let d : b / 16 / 16 ≡ 0 = omega arith in
    rw (e, bit_or_eight, bit_or_eight, d, bit_or-zero) (omega arith)

-- `b | 0x80` for a byte below 0x80.
set_top_table : every_below 128 (λ b. bit_or b 0x80 == b + 128) ≡ true
unfolding every_below
set_top_table = refl

pub set_top_bit : (b : ℕ) → b < 128 → bit_or b 0x80 ≡ b + 128
set_top_bit b h = (==_iff _ (b + 128)).0 (every_below-lookup 128 _ b set_top_table h)

-- `tag & 0x7f`.
and_none : (count a : ℕ) → digits (λ b. zero) min count a 0 ≡ 0
and_none zero a = refl
and_none (suc count) zero = refl
and_none (suc count) (suc a) = omega (arith, and_none count (suc a / 2))

-- A mask of ones keeps the lowest digit, and the rest of the mask the others.
bit_and_ones : (a m : ℕ) → bit_and a (m * 2 + 1) ≡ bit_and (a / 2) m * 2 + a % 2
bit_and_ones zero m = bit_and-bitwise 0 (m * 2 + 1) ∙ omega (arith, bit_and-bitwise 0 m)
bit_and_ones (suc a) m =
    let e : (m * 2 + 1) / 2 ≡ m = omega arith in
    omega (
      arith,
      bit_and-bitwise (suc a) (m * 2 + 1),
      bitwise_lowest (λ b. zero) min a (m * 2 + 1),
      ap (λ k. bitwise (λ b. zero) min (suc a / 2) k) e,
      bit_and-bitwise (suc a / 2) m,
    )

pub low_seven_bits : (a : ℕ) → bit_and a 0x7f ≡ a % 128
low_seven_bits a =
    let high = a / 2 / 2 / 2 / 2 / 2 / 2 in
    omega (
      arith,
      bit_and_ones a 63,
      bit_and_ones (a / 2) 31,
      bit_and_ones (a / 2 / 2) 15,
      bit_and_ones (a / 2 / 2 / 2) 7,
      bit_and_ones (a / 2 / 2 / 2 / 2) 3,
      bit_and_ones (a / 2 / 2 / 2 / 2 / 2) 1,
      bit_and_ones high 0,
      bit_and-bitwise (high / 2) 0,
      and_none (high / 2) (high / 2),
    )
