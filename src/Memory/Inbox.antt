-- ===== src/Memory/Inbox.antt =====
-- libs/backend/go/memory/inbox.go: the transactional inbox, the deduplication boundary of a transaction.
pub mod Replays
pub mod Held
use Prim.Native.String.{◌++◌ as text_append}
use text.Mathlib.TextEquality.{eq_iff}
use dmpf.Prelude.{
  ℕ, ◌≡◌, ◌↔◌, String, string_eq, Bool, true, false, ◌&&◌, ◌||◌, not, List, [], ◌∷◌, Option, none,
  some, Eq, ◌==◌, arith, if◌then◌else◌,
}
use dmpf.Prelude.Int.{ℤ, pos, leb_ℤ, eqb_ℤ}
use dmpf.Prelude.Maps.{lookup, insert}
use dmpf.Ports.Results.{
  Result, ok, err, panic, ◌>>=◌, Error, inbox_consumer_required, inbox_consumer_mismatch,
  command_expiry_required, already_completed, invalid_completion,
}
use dmpf.Ports.Context.{Context}
use dmpf.Ports.Inbox.{
  Status, unset, processed, rejected, Receipt, Completion, Reception, first, was_processed,
  was_rejected, collision,
}
use dmpf.Memory.Rows.{scoped_key, RowKey}

pub record InboxKey : Type 0 where
  pub consumer : String
  pub id : String

pub record InboxRow : Type 0 where
  pub hash : String
  pub status : Status
  pub last_error : String
  pub outcome : List ℕ
  pub expires_at : ℤ

abbrev pub same_inbox_key : InboxKey → InboxKey → Bool
same_inbox_key a b = a.consumer == b.consumer && a.id == b.id

pub same_inbox_key_iff : (a b : InboxKey) → (same_inbox_key a b ≡ true) ↔ (a ≡ b)
same_inbox_key_iff a b = ground (arith, eq_iff a.consumer b.consumer, eq_iff a.id b.id)

instance abbrev pub inbox_key_eq : Eq InboxKey
inbox_key_eq = record { equals = same_inbox_key; equals_iff = same_inbox_key_iff }

abbrev pub InboxRows : Type 0
InboxRows = List (InboxKey × InboxRow)

-- memoryPending, without the transaction that it writes to.
pub record Pending : Type 0 where
  pub key : InboxKey
  pub hash : String
  pub expires_at : ℤ
  pub completed : Bool

-- The inbox of one consumer; `commands` scopes the key to the tenant and requires an expiry.
pub record TxInbox : Type 0 where
  pub consumer : String
  pub commands : Bool

pub expired : InboxRow → ℤ → Bool
expired row at = not (eqb_ℤ row.expires_at (pos 0)) && leb_ℤ row.expires_at at

-- The identifier under which a receipt is filed.
unfoldable pub filed_id : TxInbox → Context → Receipt → Result String
filed_id i ctx r =
    if not i.commands
    then ok r.message_id
    else if leb_ℤ r.expires_at r.received_at
    then err command_expiry_required
    else do
      scoped ← scoped_key ctx r.message_id
      ok (text_append scoped.tenant (text_append "/" r.message_id))

abbrev pub fresh : InboxKey → Receipt → Reception Pending
fresh key r =
    first
      (record { key = key; hash = r.payload_hash; expires_at = r.expires_at; completed = false })

unfoldable pub classify : InboxKey → Receipt → InboxRow → Reception Pending
unfolding expired
classify key r existing =
    if expired existing r.received_at
    then fresh key r
    else if not (existing.hash == r.payload_hash)
    then collision
    else elim existing.status [
      | processed ↦ was_processed existing.outcome
      | _ ↦ was_rejected existing.outcome
    ]

unfoldable pub receive : InboxKey → Receipt → InboxRows → Reception Pending
unfolding classify
receive key r rows = elim (lookup key rows) [
  | none ↦ fresh key r
  | some existing ↦ classify key r existing
]

-- `Register` reads the rows of the transaction and writes none.
unfoldable pub register : TxInbox → Context → Receipt → InboxRows → Result (Reception Pending)
unfolding filed_id receive
register i ctx r rows =
    if i.consumer == "" || r.consumer == ""
    then err inbox_consumer_required
    else if not (r.consumer == i.consumer)
    then err inbox_consumer_mismatch
    else do id ← filed_id i ctx r; ok (receive (record { consumer = i.consumer; id = id }) r rows)

abbrev pub is_terminal : Status → Bool
is_terminal unset = false
is_terminal processed = true
is_terminal rejected = true

abbrev pub completed_row : Pending → Completion → InboxRow
completed_row p c = record {
  hash = p.hash;
  status = c.status;
  last_error = c.last_error;
  outcome = c.outcome;
  expires_at = p.expires_at;
}

-- `Complete` stages the row, and the pending that it leaves is completed.
unfoldable pub complete : Pending → Completion → InboxRows → InboxRows × Result Pending
complete p c rows =
    if p.completed
    then (rows, err already_completed)
    else if not (is_terminal c.status)
    then (rows, err invalid_completion)
    else (insert p.key (completed_row p c) rows, ok (record p { completed = true }))
