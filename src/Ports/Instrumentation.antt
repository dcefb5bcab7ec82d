-- ===== src/Ports/Instrumentation.antt =====
-- libs/backend/go/ports/instrumentation.go: what a use case reports of itself, as the list of its reports.
use dmpf.Prelude.{String, Bool, true, false, Option, none, some, if◌then◌else◌}
use dmpf.Prelude.Int.{ℤ}
use dmpf.Ports.Results.{Error, denied, failure}

pub data OutcomeCategory : Type 0 where
  outcome_accepted outcome_rejected outcome_denied outcome_failed : OutcomeCategory

-- `ended` is the call of an EndOperation with its Result.
pub data Report : Type 0 where
  begun : (operation : String) → Report
  ended : OutcomeCategory → Option Error → Report
  audited : (object action : String) → OutcomeCategory → (at : ℤ) → Report

-- errors.Is(err, ErrDenied)
abbrev pub is_denied : Error → Bool
is_denied denied = true
is_denied (failure c r cause) = is_denied cause
is_denied _ = false

abbrev pub authorization_result : Error → Report
authorization_result x =
    if is_denied x then ended outcome_denied none else ended outcome_failed (some x)
