-- ===== src/Prelude/Decimal.antt =====
-- strconv.Itoa: the decimal digits of an int. A number of at most n + 1 digits is printed on n + 1
-- units of fuel, so the fuel never runs out.
use Prim.Native.Nat.{ℕ, zero, suc, ◌+◌, ◌-◌, ◌*◌, ◌/◌, ◌%◌, ◌<◌}
use Prim.Native.Char.{Char, code}
use Prim.Native.String.{String}
use mathlib.Core.Path.{◌≡◌, refl, ap, ◌∙◌}
use mathlib.Core.Logic.{inl, inr}
use native.Mathlib.Omega.{arith}
use dmpf.Prelude.Tests.{ltb, eqb, if◌then◌else◌, Bool-cases}
use dmpf.Prelude.Int.{ℤ, pos, negsuc}

unfoldable pub digit : ℕ → Char
digit n =
    if eqb n 0
    then "0"
    else if eqb n 1
    then "1"
    else if eqb n 2
    then "2"
    else if eqb n 3
    then "3"
    else if eqb n 4
    then "4"
    else if eqb n 5
    then "5"
    else if eqb n 6
    then "6"
    else if eqb n 7
    then "7"
    else if eqb n 8
    then "8"
    else "9"

unfoldable pub digits_from : ℕ → ℕ → String → String
unfolding digit
digits_from zero n acc = acc
digits_from (suc fuel) n acc =
    let longer = digits_from fuel (n / 10) (String.◌∷◌ (digit (n % 10)) acc) in
    if ltb n 10 then String.◌∷◌ (digit n) acc else longer

unfoldable pub itoa : ℤ → String
unfolding digits_from
itoa (pos n) = digits_from (suc n) n ""
itoa (negsuc n) = String.◌∷◌ "-" (digits_from (suc (suc n)) (suc n) "")

-- The number that decimal digits write, after those already read.
abbrev pub value : ℕ → String → ℕ
value n String.[] = n
value n (String.◌∷◌ c s) = value (n * 10 + (code c - 48)) s

value-digit : (n : ℕ) → n < 10 → code (digit n) - 48 ≡ n
unfolding digit
value-digit zero small = refl
value-digit (suc zero) small = refl
value-digit (suc (suc zero)) small = refl
value-digit (suc (suc (suc zero))) small = refl
value-digit (suc (suc (suc (suc zero)))) small = refl
value-digit (suc (suc (suc (suc (suc zero))))) small = refl
value-digit (suc (suc (suc (suc (suc (suc zero)))))) small = refl
value-digit (suc (suc (suc (suc (suc (suc (suc zero))))))) small = refl
value-digit (suc (suc (suc (suc (suc (suc (suc (suc zero)))))))) small = refl
value-digit (suc (suc (suc (suc (suc (suc (suc (suc (suc zero))))))))) small = refl
value-digit (suc (suc (suc (suc (suc (suc (suc (suc (suc (suc n)))))))))) small =
    absurd (omega (arith, small))

value-digits_from :
    (fuel n : ℕ) (s : String) → n < fuel → value 0 (digits_from fuel n s) ≡ value n s
unfolding digits_from
value-digits_from zero n s enough = absurd (omega (arith, enough))
value-digits_from (suc fuel) n s enough = elim (Bool-cases (ltb n 10)) [
  | inl small ↦
      rw small (ap (λ d. value d s) (omega (arith, value-digit n (ground (arith, small)))))
  | inr large ↦ rw large (
      value-digits_from fuel (n / 10) (String.◌∷◌ (digit (n % 10)) s)
        (ground (arith, large, enough))
      ∙ ap (λ d. value d s) (omega (arith, value-digit (n % 10) (omega arith))))
]

pub value-itoa : (n : ℕ) → value 0 (itoa (pos n)) ≡ n
unfolding itoa digits_from
value-itoa n = value-digits_from (suc n) n "" (omega arith)
