-- ===== src/Examples/Retrying.antt =====
-- A retry under the default policy.
use dmpf.Prelude.{
  ◌≡◌, refl, ◌↔◌, Bool, true, false, List, [], ◌∷◌, none, some, min, ◌*◌, ◌^◌, arith,
}
use dmpf.Prelude.Int.{pos, ◌≤ℤ◌}
use dmpf.Retry.Backoff.{Backoff, interval, next}
use dmpf.Retry.Backoff.Growth.{interval_closed, next_bounds}
use dmpf.Retry.Budget.{Budget}
use dmpf.Retry.Budget.Balance.{add64_exact}
use dmpf.Retry.Budget.Shared as Shared
use dmpf.Retry.Evaluate.{
  Input, retryable, factor_none, factor_retryable, denied_by, evaluate, classified, wait_of,
  need_of,
}
use dmpf.Retry.Evaluate.Verdicts as Verdicts
use dmpf.Examples.Floats.{milli, milli-ScalesDown}

abbrev seconds : Backoff
seconds = record { base = pos 100_000_000; factor = pos 2; cap = pos 5_000_000_000 }

interval_closed_example : interval seconds (pos 6) ≡ pos (min 5_000_000_000 (100_000_000 * 2 ^ 6))
interval_closed_example =
    interval_closed seconds 6 100_000_000 2 5_000_000_000 refl refl refl (omega arith) (omega arith)
      (omega arith) (omega arith) (omega arith)

next_bounds_example :
    (pos 0 ≤ℤ next milli seconds (pos 3) (some (some 250)))
    × (next milli seconds (pos 3) (some (some 250))
        ≤ℤ pos (min 5_000_000_000 (100_000_000 * 2 ^ 3)))
next_bounds_example =
    next_bounds milli seconds 3 100_000_000 2 5_000_000_000 (some (some 250)) milli-ScalesDown refl
      refl refl refl (omega arith) (omega arith) (omega arith) (omega arith) (omega arith)
      (omega arith)

abbrev purse : Budget
purse = record { remaining = pos 100; armed = true; reported = false }

abbrev contention : List Shared.Move
contention =
    Shared.arms (pos 100)
    ∷ Shared.arms (pos 300)
    ∷ Shared.stores
    ∷ Shared.reserves (pos 30)
    ∷ Shared.debits (pos 5)
    ∷ Shared.settles 0 (pos 10)
    ∷ []

run_shared-Inv_example : Shared.Inv (Shared.run Shared.start contention)
run_shared-Inv_example =
    Shared.run_shared-Inv contention
      (ground arith, (ground arith, (tt, (ground arith, (ground arith, (ground arith, tt))))))

abbrev asked : Input milli Bool
asked = record {
  err = true;
  classifier = some (λ e. retryable);
  operation = record {
    dependency = "ledger";
    method = "get";
    idempotent = true;
    effect_absent = none;
    estimated_duration = pos 5;
  };
  attempt = pos 0;
  max_attempts = pos 3;
  budget = some (record { remaining = pos 900_000_000; armed = true; reported = false });
  remaining = pos 900_000_000;
  backoff = seconds;
  rand = some (some 500);
}

abbrev unclassified : Input milli Bool
unclassified = record asked { classifier = none }

evaluate-allowed_iff_example :
    (evaluate milli Bool asked ≡ record {
      allowed = true;
      denied = factor_none;
      wait = wait_of milli Bool asked;
      need = need_of milli Bool asked;
    })
    ↔ (Verdicts.Within milli Bool asked
        × Verdicts.IsTransient milli Bool asked
        × Verdicts.IsRepeatable milli Bool asked
        × Verdicts.IsFunded milli Bool asked
        × Verdicts.IsTimely milli Bool asked)
evaluate-allowed_iff_example = Verdicts.evaluate-allowed_iff milli Bool asked

evaluate-unclassified : evaluate milli Bool unclassified ≡ denied_by factor_retryable
unfolding evaluate classified
evaluate-unclassified = ground (arith, add64_exact 0 1 (omega arith))

evaluate-Denies_example :
    Verdicts.Denies milli Bool unclassified factor_retryable
    × (evaluate milli Bool unclassified ≡ denied_by factor_retryable)
evaluate-Denies_example =
    Verdicts.evaluate-Denies milli Bool unclassified factor_retryable
      (rw evaluate-unclassified refl) (rw evaluate-unclassified refl)
