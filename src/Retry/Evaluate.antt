-- ===== src/Retry/Evaluate.antt =====
-- libs/backend/go/observability/retry/evaluate.go and classifier.go: the verdict on one more attempt.
pub mod Verdicts
use dmpf.Prelude.{
  ℕ, Bool, true, false, ◌&&◌, ◌||◌, not, Option, none, some, String, if◌then◌else◌, ◌≡◌, refl, ◌↔◌,
  arith,
}
use dmpf.Prelude.Int.{ℤ, pos, ltb_ℤ, leb_ℤ, ◌≤ℤ◌, ◌<ℤ◌}
use dmpf.Prelude.Word.{add64}
use dmpf.Prelude.Float.{FloatOps}
use dmpf.Retry.Budget.{Budget, remaining_of}
use dmpf.Retry.Backoff.{Backoff, next}

pub data Retryability : Type 0 where
  unknown retryable not_retryable : Retryability

abbrev pub retryability_name : Retryability → String
retryability_name retryable = "retryable"
retryability_name not_retryable = "not_retryable"
retryability_name unknown = "unknown"

pub data Factor : Type 0 where
  factor_none factor_attempts factor_retryable factor_idempotent factor_budget factor_deadline :
      Factor

abbrev pub factor_name : Factor → String
factor_name factor_attempts = "attempts"
factor_name factor_retryable = "retryable"
factor_name factor_idempotent = "idempotent"
factor_name factor_budget = "budget"
factor_name factor_deadline = "deadline"
factor_name factor_none = "none"

pub record Verdict : Type 0 where
  pub allowed : Bool
  pub denied : Factor
  pub wait : ℤ
  pub need : ℤ

abbrev pub denied_by : Factor → Verdict
denied_by f = record { allowed = false; denied = f; wait = pos 0; need = pos 0 }

module _ (O : FloatOps) (Err : Type 0) where
  open O use {F}

  pub record Operation : Type 0 where
    pub dependency : String
    pub method : String
    pub idempotent : Bool
    pub effect_absent : Option (Err → Bool)
    pub estimated_duration : ℤ

  pub record Input : Type 0 where
    pub err : Err
    pub classifier : Option (Err → Retryability)
    pub operation : Operation
    pub attempt : ℤ
    pub max_attempts : ℤ
    pub budget : Option Budget
    pub remaining : ℤ
    pub backoff : Backoff
    pub rand : Option F

  abbrev pub is_retryable : Retryability → Bool
  is_retryable retryable = true
  is_retryable _ = false

  unfoldable pub classified : Option (Err → Retryability) → Err → Bool
  classified none err = false
  classified (some classify) err = is_retryable (classify err)

  pub repeatable : Operation → Err → Bool
  repeatable op err =
      if op.idempotent then true else elim op.effect_absent [ none ↦ false | some f ↦ f err ]

  pub covers : Option Budget → ℤ → Bool
  covers none need = false
  covers (some b) need = not (ltb_ℤ (remaining_of b) need)

  abbrev pub wait_of : Input → ℤ
  wait_of in' = next O in'.backoff in'.attempt in'.rand

  abbrev pub need_of : Input → ℤ
  need_of in' = add64 in'.operation.estimated_duration (wait_of in')

  unfoldable pub evaluate : Input → Verdict
  evaluate in' =
      if leb_ℤ in'.max_attempts (add64 in'.attempt (pos 1))
      then denied_by factor_attempts
      else if not (classified in'.classifier in'.err)
      then denied_by factor_retryable
      else if not (repeatable in'.operation in'.err)
      then denied_by factor_idempotent
      else if not (covers in'.budget (need_of in'))
      then denied_by factor_budget
      else if ltb_ℤ in'.remaining (need_of in')
      then denied_by factor_deadline
      else record { allowed = true; denied = factor_none; wait = wait_of in'; need = need_of in' }
