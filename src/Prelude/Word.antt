-- ===== src/Prelude/Word.antt =====
-- The int64 of Go: what an operation leaves is its mathematical result modulo 2^64, read signed.
use Prim.Native.Nat.{ℕ, ◌-◌, ◌%◌, ◌≤◌, ◌<◌}
use mathlib.Core.Path.{◌≡◌}
use native.Mathlib.Omega.{arith}
use dmpf.Prelude.Tests.{ltb, if◌then◌else◌}
use dmpf.Prelude.Int.{ℤ, pos, negsuc, pos_part, neg_part, ◌+ℤ◌, ◌-ℤ◌, ◌*ℤ◌}

-- 2 ^ 63 and 2 ^ 64.
abbrev pub half_range : ℕ
half_range = 9223372036854775808

abbrev pub full_range : ℕ
full_range = 18446744073709551616

unfoldable pub wrap64 : ℤ → ℤ
wrap64 (pos n) =
    let m = n % full_range in if ltb m half_range then pos m else negsuc (full_range - 1 - m)
wrap64 (negsuc n) =
    let m = n % full_range in if ltb m half_range then negsuc m else pos (full_range - 1 - m)

abbrev pub IsInt64 : ℤ → Type 0
IsInt64 a = (pos_part a < half_range) × (neg_part a ≤ half_range)

pub wrap64_of_IsInt64 : (a : ℤ) → IsInt64 a → wrap64 a ≡ a
unfolding wrap64
wrap64_of_IsInt64 (pos n) h = ground arith
wrap64_of_IsInt64 (negsuc n) h = ground arith

pub wrap64-IsInt64 : (a : ℤ) → IsInt64 (wrap64 a)
unfolding wrap64
wrap64-IsInt64 (pos n) = ground arith
wrap64-IsInt64 (negsuc n) = ground arith

unfoldable pub add64 : ℤ → ℤ → ℤ
add64 a b = wrap64 (a +ℤ b)

unfoldable pub sub64 : ℤ → ℤ → ℤ
sub64 a b = wrap64 (a -ℤ b)

unfoldable pub mul64 : ℤ → ℤ → ℤ
mul64 a b = wrap64 (a *ℤ b)
