-- ===== src/Ports/Context.antt =====
-- libs/backend/go/ports/execcontext.go: the execution context and the carrier that holds it.
pub mod Validity
use dmpf.Prelude.{
  ℕ, String, string_eq, ◌==◌, Bool, true, false, ◌&&◌, ◌||◌, not, List, Option, none, some,
  if◌then◌else◌,
}
use dmpf.Prelude.Int.{ℤ, pos, leb_ℤ}
use dmpf.Ports.Results.{
  Error, context_absent, context_field_missing, context_value_empty, context_permissions_mismatch,
  Result, ok, err,
}

-- A nil pointer and a nil slice are `none`.
pub record ExecutionContextSpec : Type 0 where
  pub request_id : String
  pub correlation_id : String
  pub causation_id : Option String
  pub trace_context : String
  pub subject : Option String
  pub tenant : Option String
  pub permissions : Option (List String)
  pub deadline : ℤ
  pub locale : String

-- A value with its `has` flag is an `Option`.
pub record ExecutionContext : Type 0 where
  pub request_id : String
  pub correlation_id : String
  pub causation_id : Option String
  pub trace_context : String
  pub subject : Option String
  pub tenant : Option String
  pub permissions : Option (List String)
  pub deadline : ℤ
  pub locale : String

abbrev pub is_some {ℓ} : {A : Type ℓ} → Option A → Bool
is_some none = false
is_some (some a) = true

abbrev pub is_empty : Option String → Bool
is_empty none = false
is_empty (some s) = s == ""

fields_missing : ExecutionContextSpec → Bool
fields_missing s =
    s.request_id == ""
    || s.correlation_id == ""
    || s.trace_context == ""
    || leb_ℤ s.deadline (pos 0)
    || s.locale == ""

values_empty : ExecutionContextSpec → Bool
values_empty s = is_empty s.causation_id || is_empty s.subject || is_empty s.tenant

permissions_mismatch : ExecutionContextSpec → Bool
permissions_mismatch s =
    (is_some s.subject && not (is_some s.permissions))
    || (not (is_some s.subject) && is_some s.permissions)

pub new_execution_context : ExecutionContextSpec → Result ExecutionContext
unfolding fields_missing values_empty permissions_mismatch
new_execution_context s =
    if fields_missing s
    then err context_field_missing
    else if values_empty s
    then err context_value_empty
    else if permissions_mismatch s
    then err context_permissions_mismatch
    else ok (record {
      request_id = s.request_id;
      correlation_id = s.correlation_id;
      causation_id = s.causation_id;
      trace_context = s.trace_context;
      subject = s.subject;
      tenant = s.tenant;
      permissions = s.permissions;
      deadline = s.deadline;
      locale = s.locale;
    })

-- What the code reads of a context.Context: the execution context, the idempotency key, and `ctx.Err()`.
pub record Context : Type 0 where
  pub execution : Option ExecutionContext
  pub idempotency_key : Option String
  pub cancelled : Option Error

unfoldable pub require_execution_context : Context → Result ExecutionContext
require_execution_context ctx = elim ctx.execution [ none ↦ err context_absent | some e ↦ ok e ]
