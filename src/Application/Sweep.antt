-- ===== src/Application/Sweep.antt =====
-- libs/backend/go/application/sweep.go: one page of the sweep of stale attempts. `ended` is what `ctx.Err()`
-- says in a state, and `close` closes an attempt.
pub mod Pages
use dmpf.Prelude.{ℕ, ◌+◌, String, List, [], ◌∷◌, ◌++◌, Option, none, some}
use dmpf.Prelude.Int.{ℤ}
use dmpf.Ports.Results.{Result, ok, err, panic, Error}
use dmpf.Ports.Attempts.{Attempt, AttemptCursor, cursor_of}

pub record SweepPage : Type 0 where
  pub seen : ℕ
  pub swept : ℕ
  pub next : AttemptCursor

-- A page, and the errors that errors.Join joins.
abbrev pub Swept : Type 0
Swept = SweepPage × List Error

abbrev pub visited : Attempt → SweepPage → SweepPage
visited a page = record page { seen = page.seen + 1; next = cursor_of a }

abbrev pub counted : SweepPage → SweepPage
counted page = record page { swept = page.swept + 1 }

module _ {S : Type 0} (ended : S → Option Error) (close : Attempt → S → S × Result (Unit {0})) where
  unfoldable pub sweep_loop : List Attempt → SweepPage → List Error → S → S × Result Swept
  sweep_loop [] page failures s = (s, ok (page, failures))
  sweep_loop (a ∷ rest) page failures s = elim (ended s) [
    | some x ↦ (s, ok (page, failures ++ x ∷ []))
    | none ↦ elim ((close a s).1) [
      | ok closed ↦ sweep_loop rest (counted (visited a page)) failures ((close a s).0)
      | err x ↦ sweep_loop rest (visited a page) (failures ++ x ∷ []) ((close a s).0)
      | panic ↦ ((close a s).0, panic)
    ]
  ]

  -- `listed` is what the ledger's Stale answered.
  unfoldable pub sweep_stale : Result (List Attempt) → AttemptCursor → S → S × Result Swept
  sweep_stale (ok attempts) after s =
      sweep_loop attempts (record { seen = 0; swept = 0; next = after }) [] s
  sweep_stale (err x) after s = (s, err x)
  sweep_stale panic after s = (s, panic)
