-- ===== src/Application/Varint/Bits.antt =====
-- The masks and the shifts of varint.go as arithmetic: a mask of one byte by a table, and the union of a
-- value below a power of two with a multiple of that power.
use Prim.Native.Nat.{bit_and, bit_or, digits, bit_or-bitwise, bit_and-bitwise, min}
use dmpf.Prelude.{
  ℕ, zero, suc, ◌+◌, ◌*◌, ◌/◌, ◌%◌, ◌^◌, ◌≤◌, ◌<◌, ◌≡◌, refl, max, Bool, true, ◌&&◌, arith, eqb,
  eqb_iff, ap,
}

check_below : ℕ → (ℕ → Bool) → Bool
check_below zero p = true
check_below (suc n) p = p n && check_below n p

check_below_sound : (n : ℕ) (p : ℕ → Bool) (x : ℕ) → check_below n p ≡ true → x < n → p x ≡ true
unfolding check_below
check_below_sound zero p x h lt = absurd (omega arith)
check_below_sound (suc n) p x h lt = ground (arith, check_below_sound n p x)

low_table : check_below 256 (λ b. eqb (bit_and b 0x7f) (b % 128)) ≡ true
unfolding check_below
low_table = refl

pub bit_and_low : (b : ℕ) → b < 256 → bit_and b 0x7f ≡ b % 128
bit_and_low b h = (eqb_iff _ _).0 (check_below_sound 256 _ b low_table h)

high_table : check_below 256 (λ b. eqb (bit_or b 0x80) (b % 128 + 128)) ≡ true
unfolding check_below
high_table = refl

pub bit_or_high : (b : ℕ) → b < 256 → bit_or b 0x80 ≡ b % 128 + 128
bit_or_high b h = (eqb_iff _ _).0 (check_below_sound 256 _ b high_table h)

abbrev or_digits : ℕ → ℕ → ℕ → ℕ
or_digits n a b = digits (λ b. b) max n a b

or_digits_fuel : (n m a b : ℕ) → a ≤ n → a ≤ m → or_digits n a b ≡ or_digits m a b
or_digits_fuel zero zero a b p q = refl
or_digits_fuel zero (suc m) zero b p q = refl
or_digits_fuel zero (suc m) (suc a) b p q = absurd (omega arith)
or_digits_fuel (suc n) zero zero b p q = refl
or_digits_fuel (suc n) zero (suc a) b p q = absurd (omega arith)
or_digits_fuel (suc n) (suc m) zero b p q = refl
or_digits_fuel (suc n) (suc m) (suc a) b p q =
    omega (arith, or_digits_fuel n m (suc a / 2) (b / 2) (omega arith) (omega arith))

pub bit_or_zero : (b : ℕ) → bit_or 0 b ≡ b
bit_or_zero b = bit_or-bitwise 0 b

bit_or_step : (a b : ℕ) → bit_or a b ≡ bit_or (a / 2) (b / 2) * 2 + max (a % 2) (b % 2)
bit_or_step zero b = omega (arith, bit_or_zero b, bit_or_zero (b / 2))
bit_or_step (suc a) b = omega (
  arith,
  bit_or-bitwise (suc a) b,
  bit_or-bitwise (suc a / 2) (b / 2),
  or_digits_fuel a (suc a / 2) (suc a / 2) (b / 2) (omega arith) (omega arith),
)

power_suc : (s : ℕ) → 2 ^ suc s ≡ 2 * 2 ^ s
power_suc s = omega arith

half_shift : (s w : ℕ) → w * 2 ^ suc s / 2 ≡ w * 2 ^ s
half_shift s w = omega (arith, power_suc s, ap (λ (t : ℕ). w * t) (power_suc s))

even_shift : (s w : ℕ) → w * 2 ^ suc s % 2 ≡ 0
even_shift s w = omega (arith, power_suc s, ap (λ (t : ℕ). w * t) (power_suc s))

-- Where the digits do not meet, the union is the sum.
pub bit_or_apart : (s a w : ℕ) → a < 2 ^ s → bit_or a (w * 2 ^ s) ≡ a + w * 2 ^ s
bit_or_apart zero a w h = ground (arith, bit_or_zero w)
bit_or_apart (suc s) a w h = omega (
  arith,
  half_shift s w,
  even_shift s w,
  rw (half_shift s w) at (bit_or_step a (w * 2 ^ suc s)),
  bit_or_apart s (a / 2) w (omega (arith, power_suc s)),
)

meets_none : (n a : ℕ) → a ≤ n → digits (λ b. zero) min n a 0 ≡ 0
meets_none zero zero h = refl
meets_none zero (suc a) h = absurd (omega arith)
meets_none (suc n) zero h = refl
meets_none (suc n) (suc a) h = omega (arith, meets_none n (suc a / 2) (omega arith))

pub bit_and_one : (a : ℕ) → bit_and a 1 ≡ a % 2
bit_and_one zero = refl
bit_and_one (suc a) =
    omega (arith, bit_and-bitwise (suc a) 1, meets_none a (suc a / 2) (omega arith))
