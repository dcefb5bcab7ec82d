-- ===== src/Examples/Floats.antt =====
-- A float64 of whole thousandths with a NaN, for the runs.
use dmpf.Prelude.{ℕ, ◌+◌, ◌-◌, ◌*◌, ◌/◌, ◌≤◌, ◌<◌, false, leb, arith, Bool, Option, none, some}
use dmpf.Prelude.Int.{pos, negsuc, pos_part, ℤ}
use dmpf.Prelude.Word.{half_range}
use dmpf.Prelude.Float.{FloatOps}
use dmpf.Retry.Backoff.Growth.{ScalesDown}

-- `none` is the NaN.
abbrev Milli : Type 0
Milli = Option ℕ

abbrev lift : (ℕ → ℕ → ℕ) → Milli → Milli → Milli
lift f (some a) (some b) = some (f a b)
lift f _ _ = none

abbrev at_least : Milli → Milli → Bool
at_least (some a) (some b) = leb b a
at_least _ _ = false

-- A NaN converts to the least int64.
abbrev whole : Milli → ℤ
whole none = negsuc (half_range - 1)
whole (some a) = pos (a / 1000)

abbrev pub milli : FloatOps
milli = record {
  F = Milli;
  zero_f = some 0;
  one_f = some 1000;
  of_int = λ z. some (1000 * pos_part z);
  add = lift (λ a b. a + b);
  sub = lift (λ a b. a - b);
  mul = lift (λ a b. a / 1000 * b);
  div = lift (λ a b. 1000 * a / b);
  geb = at_least;
  truncate = whole;
  seconds = λ d. some (pos_part d / 1_000_000);
}

scaled : (n d : ℕ) → d < 1000 → n * d ≤ n * 1000
scaled n d h = grind arith

pub milli-ScalesDown : ScalesDown milli
milli-ScalesDown n none small number above below = absurd (ground (arith, number))
milli-ScalesDown n (some d) small number above below = ground (arith, scaled n d)
