-- ===== src/Application/NextStep/Cycle.antt =====
-- Which steps the cycle takes, and that its queries come to an end.
use dmpf.Prelude.{◌≡◌, ◌≢◌, ◌⊎◌, ◌↔◌, true, arith, ◌||◌}
use dmpf.Prelude.Int.{◌≤ℤ◌, ◌<ℤ◌}
use dmpf.Ports.Attempts.{accepted, no_finding, applied, absent, is_retryable}
use dmpf.Application.NextStep.{
  confirm, await, retry, query, StepInput, next_step, keeps_key, is_on_submit, step_for_finding,
  step_for_class, await_or_reconcile, query_or_reconcile,
}

-- The external command is sent again only where that cannot repeat an effect: the answer was retryable
-- and nothing was found, or the partner has no trace of the command and either carries the key or is
-- the authority on absence. In those cases it is sent again.
pub next_step-retry_iff :
    (i : StepInput)
    → (next_step i ≡ retry) ↔ (
        ((i.finding ≡ no_finding) × (is_retryable i.class ≡ true))
        ⊎ ((i.finding ≡ absent)
            × ((keeps_key i.profile.key_semantics || i.profile.authoritative_absence) ≡ true)))
unfolding next_step step_for_finding step_for_class await_or_reconcile query_or_reconcile
next_step-retry_iff i = ground arith

-- A command is confirmed exactly when the partner was found to have applied it, or accepted it and its
-- effect is due on submission.
pub next_step-confirm_iff :
    (i : StepInput)
    → (next_step i ≡ confirm) ↔ (
        (i.finding ≡ applied)
        ⊎ ((i.finding ≡ no_finding)
            × (i.class ≡ accepted)
            × (is_on_submit i.profile.efficacy ≡ true)))
unfolding next_step step_for_finding step_for_class await_or_reconcile query_or_reconcile
next_step-confirm_iff i = ground arith

-- A query or a wait is a step only while the profile's ceiling of queries is not reached, a query only
-- where the partner can be queried; once the ceiling is reached neither is a step again.
pub next_step_spends :
    (i : StepInput)
    → (next_step i ≡ query → (i.query_available ≡ true) × (i.queries_done <ℤ i.profile.max_queries))
      × (next_step i ≡ await → i.queries_done <ℤ i.profile.max_queries)
      × (i.profile.max_queries ≤ℤ i.queries_done → (next_step i ≢ query) × (next_step i ≢ await))
unfolding next_step step_for_finding step_for_class await_or_reconcile query_or_reconcile
next_step_spends i = ground arith
