-- ===== src/Examples/Receiving.antt =====
-- A command received, completed, and received again.
use dmpf.Prelude.{◌≡◌, refl, ◌≢◌, inr, string_eq, nat_eq, true, false, [], ◌∷◌, arith}
use dmpf.Prelude.Int.{pos}
use dmpf.Ports.Results.{ok}
use dmpf.Ports.Inbox.{
  Receipt, Completion, processed, rejected, first, was_processed, was_rejected, collision,
}
use dmpf.Memory.Rows.{row_key_eq, scoped_key}
use dmpf.Prelude.Maps.{lookup}
use dmpf.Memory.Inbox.{TxInbox, Pending, register, complete, filed_id, receive, classify}
use dmpf.Memory.Inbox.Replays.{register-complete}
use dmpf.Examples.Storage.{here}

abbrev commands : TxInbox
commands = record { consumer = "orders"; commands = true }

abbrev receipt : Receipt
receipt = record {
  consumer = "orders";
  message_id = "k-1";
  message_type = "place";
  payload_hash = "h1";
  received_at = pos 10;
  wait_until = pos 20;
  expires_at = pos 100;
}

abbrev again : Receipt
again = record receipt { received_at = pos 50; expires_at = pos 140; payload_hash = "h2" }

abbrev opened_pending : Pending
opened_pending = record {
  key = record { consumer = "orders"; id = "acme/k-1" };
  hash = "h1";
  expires_at = pos 100;
  completed = false;
}

abbrev completion : Completion
completion = record { status = processed; at = pos 11; last_error = ""; outcome = 1 ∷ 97 ∷ [] }

received : register commands here receipt [] ≡ ok (first opened_pending)
unfolding register receive classify filed_id scoped_key lookup
received = refl

completed :
    (complete opened_pending completion []).1 ≡ ok (record opened_pending { completed = true })
unfolding complete
completed = refl

same_id : filed_id commands here again ≡ filed_id commands here receipt
unfolding filed_id scoped_key
same_id = refl

register-complete_example :
    let answer = register commands here again (complete opened_pending completion []).0 in
    (again.payload_hash ≡ receipt.payload_hash
      → completion.status ≡ processed
      → answer ≡ ok (was_processed (1 ∷ 97 ∷ [])))
    × (again.payload_hash ≡ receipt.payload_hash
        → completion.status ≡ rejected
        → answer ≡ ok (was_rejected (1 ∷ 97 ∷ [])))
    × (again.payload_hash ≢ receipt.payload_hash → answer ≡ ok collision)
register-complete_example =
    register-complete commands here here receipt again [] [] opened_pending
      (record opened_pending { completed = true }) completion received completed refl same_id
      (inr (omega arith))
