-- ===== src/Ports/Results.antt =====
-- The errors of libs/backend/go/ports, memory and application as values. `fmt.Errorf` with `%w` keeps
-- what `errors.Is` and `errors.As` see, so a wrapped error is the error itself. `foreign` stands for an
-- error of code that is not modelled. A panic is a result of its own: no function here recovers one.
use dmpf.Prelude.{ℕ, String, Bool, true, false, Option}
use dmpf.Domain.{Rejection}

pub data Error : Type 0 where
  not_found version_conflict already_exists : Error
  cross_tenant_access : (object context_tenant data_tenant : String) → Error
  unique_violation : (table constraint : String) → Option Rejection → Error
  context_absent context_field_missing context_value_empty context_permissions_mismatch : Error
  tenant_unresolved : Error
  inbox_consumer_required inbox_consumer_mismatch command_expiry_required : Error
  already_completed invalid_completion pending_not_completed register_timeout : Error
  invalid_attempt attempt_unknown attempt_in_flight : Error
  idempotency_key_absent idempotency_key_invalid idempotency_mismatch idempotency_in_flight : Error
  incomplete_command undecodable_outcome denied : Error
  incomplete_outbound_policy incomplete_outbound_intent : Error
  attempt_profile_invalid incomplete_dispatch incomplete_abandon abandon_outside_tenant : Error
  deadline_exceeded context_canceled : Error
  object_key_invalid version_required integrity object_not_found object_locked : Error
  retention_unbounded retention_above_ceiling retention_not_extended : Error
  retention_mode_change retention_mode_unknown retention_ceiling_undeclared : Error
  scope_mismatch scope_undeclared encryption_undeclared : Error
  legal_hold_reason_required incomplete_object_store : Error
  failure : (category : String) → (retryable : Bool) → (cause : Error) → Error
  foreign : ℕ → Error

-- errors.Is(err, ErrNotFound): CrossTenantAccess unwraps to it.
abbrev pub is_not_found : Error → Bool
is_not_found not_found = true
is_not_found object_not_found = true
is_not_found (cross_tenant_access o c d) = true
is_not_found (failure c r cause) = is_not_found cause
is_not_found _ = false

pub data Result {ℓ} (A : Type ℓ) : Type ℓ where
  ok : A → Result A
  err : Error → Result A
  panic : Result A

infixl 5 ◌>>=◌ ◌>>◌
abbrev pub ◌>>=◌ {ℓ κ} : {A : Type ℓ} {B : Type κ} → Result A → (A → Result B) → Result B
ok a >>= f = f a
err e >>= f = err e
panic >>= f = panic

abbrev pub ◌>>◌ {ℓ} : {B : Type ℓ} → Result (Unit {0}) → Result B → Result B
m >> k = m >>= λ _. k
