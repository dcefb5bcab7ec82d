-- ===== src/Ports/Inbox.antt =====
-- libs/backend/go/ports/inbox.go: receptions and their four branches.
use dmpf.Prelude.{ℕ, String, List, []}
use dmpf.Prelude.Int.{ℤ}
use dmpf.Ports.Results.{Result}

-- `unset` is every value of the byte that is no constant.
pub data Status : Type 0 where
  unset processed rejected : Status

abbrev pub status_name : Status → String
status_name processed = "processed"
status_name rejected = "rejected"
status_name unset = "invalid"

pub record Receipt : Type 0 where
  pub consumer : String
  pub message_id : String
  pub message_type : String
  pub payload_hash : String
  pub received_at : ℤ
  pub wait_until : ℤ
  pub expires_at : ℤ

-- `outcome` is a sequence of bytes.
pub record Completion : Type 0 where
  pub status : Status
  pub at : ℤ
  pub last_error : String
  pub outcome : List ℕ

-- `P` is the provider's Pending.
pub data Reception (P : Type 0) : Type 0 where
  first : P → Reception P
  was_processed : (stored : List ℕ) → Reception P
  was_rejected : (stored : List ℕ) → Reception P
  collision : Reception P

abbrev pub stored_of : {P : Type 0} → Reception P → List ℕ
stored_of (first p) = []
stored_of (was_processed stored) = stored
stored_of (was_rejected stored) = stored
stored_of collision = []

-- The Inbox of one transaction, and the Pending that it hands out: both may change the state `W`.
pub record Inbox (W P : Type 0) : Type 0 where
  pub register : Receipt → W → W × Result (Reception P)
  pub complete : P → Completion → W → W × Result (Unit {0})
