-- ===== src/Ports/Context/Validity.antt =====
-- Which specifications make an execution context.
use dmpf.Prelude.{◌≡◌, ◌≢◌, ◌↔◌, String, string_eq, true, Option, none, some, arith, ◌==◌}
use text.Mathlib.TextEquality.{eq_iff}
use dmpf.Prelude.Int.{pos, ◌<ℤ◌}
use dmpf.Ports.Results.{ok}
use dmpf.Ports.Context.{
  ExecutionContextSpec, ExecutionContext, new_execution_context, fields_missing, values_empty,
  permissions_mismatch, is_empty,
}

-- The required fields are there, no optional one is empty, and permissions come with a subject.
abbrev pub IsComplete : ExecutionContextSpec → Type 0
IsComplete s =
    (s.request_id ≢ "")
    × (s.correlation_id ≢ "")
    × (s.trace_context ≢ "")
    × (pos 0 <ℤ s.deadline)
    × (s.locale ≢ "")
    × (s.causation_id ≢ some "")
    × (s.subject ≢ some "")
    × (s.tenant ≢ some "")
    × ((s.subject ≡ none) ↔ (s.permissions ≡ none))

is_empty_iff : (o : Option String) → (is_empty o ≡ true) ↔ (o ≡ some "")
is_empty_iff none = ground arith
is_empty_iff (some s) = ground (arith, eq_iff s "")

-- The context of a specification that is accepted.
abbrev pub granted : ExecutionContextSpec → ExecutionContext
granted s = record {
  request_id = s.request_id;
  correlation_id = s.correlation_id;
  causation_id = s.causation_id;
  trace_context = s.trace_context;
  subject = s.subject;
  tenant = s.tenant;
  permissions = s.permissions;
  deadline = s.deadline;
  locale = s.locale;
}

facts :
    (s : ExecutionContextSpec)
    → ((s.request_id == "" ≡ true) ↔ (s.request_id ≡ ""))
      × ((s.correlation_id == "" ≡ true) ↔ (s.correlation_id ≡ ""))
      × ((s.trace_context == "" ≡ true) ↔ (s.trace_context ≡ ""))
      × ((s.locale == "" ≡ true) ↔ (s.locale ≡ ""))
      × ((is_empty s.causation_id ≡ true) ↔ (s.causation_id ≡ some ""))
      × ((is_empty s.subject ≡ true) ↔ (s.subject ≡ some ""))
      × ((is_empty s.tenant ≡ true) ↔ (s.tenant ≡ some ""))
facts s = (
  eq_iff s.request_id "",
  eq_iff s.correlation_id "",
  eq_iff s.trace_context "",
  eq_iff s.locale "",
  is_empty_iff s.causation_id,
  is_empty_iff s.subject,
  is_empty_iff s.tenant,
)

-- A complete specification makes the execution context that carries its values unchanged, tenant and
-- subject included, and no other specification makes one.
pub new_execution_context_iff :
    (s : ExecutionContextSpec)
    → (IsComplete s → new_execution_context s ≡ ok (granted s))
      × ((x : ExecutionContext) → new_execution_context s ≡ ok x → IsComplete s)
unfolding new_execution_context fields_missing values_empty permissions_mismatch
new_execution_context_iff s = ((λ h. ground (arith, facts s)), (λ x made. ground (arith, facts s)))
