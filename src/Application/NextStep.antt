-- ===== src/Application/NextStep.antt =====
-- libs/backend/go/application/next_step.go: the next step of the cycle of an external command.
pub mod Cycle
use dmpf.Prelude.{String, Bool, true, false, ◌&&◌, ◌||◌, if◌then◌else◌}
use dmpf.Prelude.Int.{ℤ, ltb_ℤ}
use dmpf.Ports.Attempts.{
  ExternalClass, accepted, retryable_transport, retryable_upstream, final_validation,
  final_business, final_authorization, schema_mismatch, Finding, no_finding, applied, absent,
  rejected, pending, KeySemantics, native, header, Efficacy, on_submit, ExternalProfile,
}

pub data Step : Type 0 where
  confirm await retry fail query reconcile suspend : Step

pub record StepInput : Type 0 where
  pub class : ExternalClass
  pub finding : Finding
  pub profile : ExternalProfile
  pub query_available : Bool
  pub queries_done : ℤ

abbrev pub has_budget : StepInput → Bool
has_budget i = ltb_ℤ i.queries_done i.profile.max_queries

pub await_or_reconcile : StepInput → Step
await_or_reconcile i = if has_budget i then await else reconcile

pub query_or_reconcile : StepInput → Step
query_or_reconcile i = if i.query_available && has_budget i then query else reconcile

abbrev pub keeps_key : KeySemantics → Bool
keeps_key native = true
keeps_key header = true
keeps_key _ = false

pub step_for_finding : StepInput → Step
unfolding await_or_reconcile query_or_reconcile
step_for_finding i = elim i.finding [
  | applied ↦ confirm
  | rejected ↦ fail
  | absent ↦
      if keeps_key i.profile.key_semantics || i.profile.authoritative_absence
      then retry
      else reconcile
  | pending ↦ await_or_reconcile i
  | _ ↦ query_or_reconcile i
]

abbrev pub is_on_submit : Efficacy → Bool
is_on_submit on_submit = true
is_on_submit _ = false

pub step_for_class : StepInput → Step
unfolding await_or_reconcile query_or_reconcile
step_for_class i = elim i.class [
  | accepted ↦ if is_on_submit i.profile.efficacy then confirm else await_or_reconcile i
  | retryable_transport ↦ retry
  | retryable_upstream ↦ retry
  | final_validation ↦ fail
  | final_business ↦ fail
  | final_authorization ↦ fail
  | schema_mismatch ↦ suspend
  | _ ↦ query_or_reconcile i
]

unfoldable pub next_step : StepInput → Step
unfolding step_for_finding step_for_class
next_step i = elim i.finding [ no_finding ↦ step_for_class i | _ ↦ step_for_finding i ]
