-- ===== src/Examples/Executing.antt =====
-- A command of the orders service, executed twice.
use dmpf.Prelude.{
  ◌↔◌, ◌≡◌, ◌≢◌, refl, inr, string_eq, nat_eq, String, List, [], ◌∷◌, ◌+◌, none, some, arith,
  length,
}
use dmpf.Prelude.Int.{pos, ◌+ℤ◌, ◌-ℤ◌}
use dmpf.Prelude.Word.{wrap64, add64, sub64}
use dmpf.Prelude.Decimal.{digit}
use dmpf.Prelude.Maps.{lookup, insert}
use dmpf.Domain.{decide_over}
use dmpf.Ports.Results.{Result, ok, err, panic, idempotency_mismatch, denied, context_absent}
use dmpf.Ports.Context.{Context, ExecutionContext, require_execution_context}
use dmpf.Ports.IdempotencyKey.{valid_idempotency_key, all_key_symbols}
use dmpf.Ports.Instrumentation.{Report}
use dmpf.Ports.Transaction.{MessageContext}
use dmpf.Memory.Rows.{Table, row_key_eq, scoped_key, load_key, violation, violation_from}
use dmpf.Memory.Inbox.{register, complete, filed_id, receive, classify, inbox_key_eq}
use dmpf.Memory.Store as Store
use dmpf.Memory.Store.{
  Tx, ports_of, load, save, save_as, rows_of, new_store, within, open_tx, close, commit,
}
use dmpf.Orders.{
  Snapshot, Event, ItemAccepted, add_item, decide_add_item, snapshot, from_snapshot, new_order,
}
use dmpf.Orders.Codecs.{item_accepted_codec-IsCodec, ItemFits}
use dmpf.Orders.Service.{Operation, executor, add_item_command}
use dmpf.Application.Decide.{
  Outcome, accept, Identity, decide, settle, publish, enqueue, enqueue_each, take_ids,
}
use dmpf.Application.Varint.{append_uvarint, append_varint, zigzag}
use dmpf.Application.OutcomeCodec.{encode_outcome, encode_string}
use dmpf.Application.Fingerprint.{append_field, under}
use dmpf.Application.Authorize.{permitted, permitted_iff, decide_permitted, MayPass, Authorize}
use dmpf.Application.Idempotent.{
  IdempotencyPolicy, payload_hash, hex, key_of, receipt_of, run_first, match_reception,
  run_idempotent,
}
use dmpf.Application.Idempotent.Replays.{IsRetryOf}
use dmpf.Application.Execute.{Command, resolve_identity, conclude, authorized, execute}
use dmpf.Application.Execute.Again.{execute_again, effect_of, replay_of, failure_of, repeated}
use dmpf.Ports.Context.Validity.{granted}
use dmpf.Examples.Storage.{here, caller}
use dmpf.Examples.Texts.{codes}

abbrev carrier : Context
carrier = record here { idempotency_key = some "k-1" }

abbrev policy : IdempotencyPolicy
policy = record { wait = pos 5; retention = pos 500; digest = some (λ bs. length bs ∷ []) }

abbrev may : Authorize Operation
may = permitted (λ op. "write")

abbrev orders : Table String Snapshot
orders = record { name = "orders"; show_id = λ id. id; unique = [] }

abbrev attached : MessageContext
attached = record { correlation_id = "c-1"; causation_id = ""; traceparent = ""; tracestate = "" }

abbrev command : Command (Tx String Snapshot Event) Operation ItemAccepted
command = add_item_command codes orders attached (pos 2) "o-1" "ink" (pos 1)

abbrev empty : Store.Store String Snapshot Event
empty = new_store

abbrev outcome : Outcome ItemAccepted
outcome = accept (record { order = "o-1"; items = pos 1 })

ran : Store.Store String Snapshot Event × (List Report × Result (Outcome ItemAccepted))
ran = execute codes (executor policy may) command carrier (pos 50) ("m-1" ∷ []) none none empty

took_effect : ran ≡ (ran.0, effect_of codes (executor policy may) command carrier (pos 50) outcome)
unfolding ran execute authorized conclude resolve_identity take_ids within open_tx close commit
    run_idempotent receipt_of key_of valid_idempotency_key all_key_symbols require_execution_context
    payload_hash hex under append_field append_uvarint append_varint zigzag match_reception
    run_first register receive classify filed_id scoped_key lookup insert complete encode_outcome
    encode_string decide settle publish enqueue enqueue_each Store.enqueue load save save_as rows_of
    load_key violation violation_from add_item decide_add_item decide_over snapshot from_snapshot
    new_order permitted decide_permitted wrap64 add64 sub64 ◌+ℤ◌ ◌-ℤ◌
took_effect = refl

-- The retry comes with another request and a later deadline.
abbrev there : Context
there = record carrier {
  execution = some (granted (record caller { request_id = "r-2"; deadline = pos 2000 }));
}

carrier-IsRetryOf : IsRetryOf carrier there
carrier-IsRetryOf = record {
  execution = granted caller;
  later = granted (record caller { request_id = "r-2"; deadline = pos 2000 });
  held = refl;
  held_later = refl;
  same_tenant = refl;
  same_key = refl;
}

abbrev second : Identity
second = record { occurred_at = pos 90; message_ids = "m-2" ∷ [] }

resolved : resolve_identity (pos 90) ("m-2" ∷ []) ≡ ok second
unfolding resolve_identity take_ids
resolved = refl

allowed : may there command.input ≡ ok tt
unfolding permitted decide_permitted require_execution_context
allowed = refl

abbrev fails :
    Context
    → Identity
    → Tx String Snapshot Event
    → Tx String Snapshot Event × Result (Outcome ItemAccepted)
fails ctx identity tx = (tx, panic)

hashed : payload_hash codes "orders.AddItem" command.fingerprint policy ≡ ok "2d"
unfolding payload_hash hex under append_field append_uvarint append_varint zigzag digit
hashed = refl

-- The store once the relay has drained the outbox and other transactions have committed.
abbrev drained : Store.Store String Snapshot Event
drained = record (ran.0) { outbox = []; commits = 7; fail_next_commit = none }

execute_again_example :
    (payload_hash codes "orders.AddItem" command.fingerprint policy ≡ ok "2d"
      → execute codes
          (executor policy may)
          (repeated command command.fingerprint fails)
          there
          (pos 90)
          ("m-2" ∷ [])
          none
          none
          drained
        ≡ (
          record drained { within_calls = drained.within_calls + 1; commits = drained.commits + 1 },
          replay_of codes (executor policy may) command carrier outcome,
        ))
    × (payload_hash codes "orders.AddItem" command.fingerprint policy ≢ ok "2d"
        → execute codes
            (executor policy may)
            (repeated command command.fingerprint fails)
            there
            (pos 90)
            ("m-2" ∷ [])
            none
            none
            drained
          ≡ (
            record drained { within_calls = drained.within_calls + 1 },
            failure_of codes (executor policy may) command carrier idempotency_mismatch,
          ))
unfolding execute ran
execute_again_example =
    execute_again codes (executor policy may) command carrier there carrier-IsRetryOf
      (ItemFits codes) (item_accepted_codec-IsCodec codes) outcome (omega arith, omega arith)
      (pos 50) ("m-1" ∷ []) none none empty ran.0 drained took_effect command.fingerprint "2d"
      hashed fails (pos 90) ("m-2" ∷ []) second allowed resolved (λ key row held. held) refl
      (unfold add64 wrap64 ◌+ℤ◌ in omega arith) (unfold add64 wrap64 ◌+ℤ◌ in inr (omega arith))

permitted_iff_example :
    (there.execution ≡ none → may there command.input ≡ err context_absent)
    × ((x : ExecutionContext)
        → there.execution ≡ some x
        → ((may there command.input ≡ ok tt) ↔ MayPass "write" x)
          × (may there command.input ≢ ok tt → may there command.input ≡ err denied))
permitted_iff_example = permitted_iff (λ op. "write") there command.input
