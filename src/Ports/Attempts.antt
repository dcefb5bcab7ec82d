-- ===== src/Ports/Attempts.antt =====
-- libs/backend/go/ports/external.go and attempt_ledger.go: the classes of an external call and the
-- ledger's vocabulary.
use dmpf.Prelude.{ℕ, String, Bool, true, false, eqb}
use dmpf.Prelude.Int.{ℤ}

-- `no_class` is 0; a class beyond the last constant is `undeclared`.
pub data ExternalClass : Type 0 where
  no_class accepted retryable_transport retryable_upstream final_validation : ExternalClass
  final_business final_authorization unknown_sent unknown_ambiguous schema_mismatch : ExternalClass
  undeclared : ExternalClass

abbrev pub class_name : ExternalClass → String
class_name accepted = "accepted"
class_name retryable_transport = "retryable_transport"
class_name retryable_upstream = "retryable_upstream"
class_name final_validation = "final_validation"
class_name final_business = "final_business"
class_name final_authorization = "final_authorization"
class_name unknown_sent = "unknown_sent"
class_name unknown_ambiguous = "unknown_ambiguous"
class_name schema_mismatch = "schema_mismatch"
class_name _ = "invalid"

abbrev pub is_retryable : ExternalClass → Bool
is_retryable retryable_transport = true
is_retryable retryable_upstream = true
is_retryable _ = false

-- `no_finding` is 0; a finding beyond the last constant is `undeclared_finding`.
pub data Finding : Type 0 where
  no_finding applied absent rejected pending inconclusive undeclared_finding : Finding

abbrev pub finding_name : Finding → String
finding_name no_finding = "none"
finding_name applied = "applied"
finding_name absent = "absent"
finding_name rejected = "rejected"
finding_name pending = "pending"
finding_name inconclusive = "inconclusive"
finding_name undeclared_finding = "invalid"

pub data KeySemantics : Type 0 where
  no_semantics native header keyless : KeySemantics

pub data Efficacy : Type 0 where
  no_efficacy on_submit by_observation : Efficacy

pub record Observation : Type 0 where
  pub key : String
  pub finding : Finding
  pub source_at : ℤ
  pub provider : String
  pub external_ref : String
  pub id : String

pub record ExternalProfile : Type 0 where
  pub key_semantics : KeySemantics
  pub efficacy : Efficacy
  pub quiescence : ℤ
  pub authoritative_absence : Bool
  pub max_queries : ℤ
  pub key_alphabet : String
  pub key_max_length : ℤ

pub record Attempt : Type 0 where
  pub tenant : String
  pub key : String
  pub n : ℕ
  pub message_id : String
  pub started_at : ℤ

pub record AttemptCursor : Type 0 where
  pub started_at : ℤ
  pub tenant : String
  pub key : String
  pub n : ℕ

abbrev pub cursor_of : Attempt → AttemptCursor
cursor_of a = record { started_at = a.started_at; tenant = a.tenant; key = a.key; n = a.n }

pub data AttemptStart : Type 0 where
  started : Attempt → AttemptStart
  in_flight : Attempt → AttemptStart
  done : Attempt → ExternalClass → AttemptStart

pub record AttemptOutcome : Type 0 where
  pub key : String
  pub n : ℤ
  pub class : ExternalClass
  pub observation : Observation
  pub finished_at : ℤ
  pub presumed : Bool

abbrev pub max_attempt_entries : ℕ
max_attempt_entries = 64

pub data FinishResult : Type 0 where
  recorded unchanged conflict saturated : FinishResult

pub record Finished : Type 0 where
  pub result : FinishResult
  pub class : ExternalClass

pub data ObserveResult : Type 0 where
  observe_recorded observe_duplicate observe_conflict observe_saturated : ObserveResult

pub record Observed : Type 0 where
  pub result : ObserveResult
  pub n : ℕ
  pub class : ExternalClass
  pub queries_done : ℕ

-- Go's `==` on the constants.
abbrev pub class_code : ExternalClass → ℕ
class_code no_class = 0
class_code accepted = 1
class_code retryable_transport = 2
class_code retryable_upstream = 3
class_code final_validation = 4
class_code final_business = 5
class_code final_authorization = 6
class_code unknown_sent = 7
class_code unknown_ambiguous = 8
class_code schema_mismatch = 9
class_code undeclared = 10

abbrev pub same_class : ExternalClass → ExternalClass → Bool
same_class a b = eqb (class_code a) (class_code b)

abbrev pub finding_code : Finding → ℕ
finding_code no_finding = 0
finding_code applied = 1
finding_code absent = 2
finding_code rejected = 3
finding_code pending = 4
finding_code inconclusive = 5
finding_code undeclared_finding = 6

abbrev pub same_finding : Finding → Finding → Bool
same_finding a b = eqb (finding_code a) (finding_code b)
