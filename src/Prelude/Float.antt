-- ===== src/Prelude/Float.antt =====
-- What the code uses of float64: the type and its operations are a parameter, with the values that the
-- language fixes left abstract.
use mathlib.Core.Bool.{Bool}
use dmpf.Prelude.Int.{ℤ}

pub record FloatOps : Type 1 where
  pub F : Type 0
  pub zero_f : F
  pub one_f : F
  pub of_int : ℤ → F
  pub add : F → F → F
  pub sub : F → F → F
  pub mul : F → F → F
  pub div : F → F → F
  pub geb : F → F → Bool
  pub truncate : F → ℤ
  -- time.Duration.Seconds
  pub seconds : ℤ → F
