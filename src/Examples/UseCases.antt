-- ===== src/Examples/UseCases.antt =====
-- An item added to a stored order.
use dmpf.Prelude.{ℕ, ◌≡◌, refl, String, string_eq, nat_eq, List, [], ◌∷◌, arith}
use dmpf.Prelude.Int.{pos}
use dmpf.Prelude.Maps.{lookup, insert}
use dmpf.Domain.{decide_over}
use dmpf.Ports.Results.{Result, ok}
use dmpf.Ports.Transaction.{MessageContext}
use dmpf.Memory.Rows.{Table, RowKey, row_key_eq, scoped_key, load_key, violation, violation_from}
use dmpf.Memory.Store as Store
use dmpf.Memory.Store.{Tx, ports_of, load, save, save_as, rows_of}
use dmpf.Memory.Store.Tenancy.{Unwritten}
use dmpf.Memory.Store.Refinement.{Call, loads, saves, run_tx, run_cells, cells_of, run_tx-run_cells}
use dmpf.Orders as Orders
use dmpf.Orders.{
  Order, Event, ItemAccepted, AddItem, add_item, decide_add_item, snapshot, from_snapshot,
  open_status, placed, new_order,
}
use dmpf.Application.Decide.{
  Outcome, accept, refuse, Identity, Origin, decide, settle, publish, enqueue, enqueue_each, or_new,
}
use dmpf.Application.Decide.Publish.{IsRefusal}
use dmpf.Application.Decide.Writes.{Written, decide-accept, decide_refused}
use dmpf.Examples.Storage.{here}

abbrev orders : Table String Orders.Snapshot
orders = record { name = "orders"; show_id = λ id. id; unique = [] }

abbrev key : RowKey String
key = record { tenant = "acme"; id = "o-1" }

abbrev stored : Orders.Snapshot
stored = record {
  id = "o-1";
  status = open_status;
  item_limit = pos 2;
  items = record { sku = "pen"; quantity = pos 2 } ∷ [];
}

abbrev session : Tx String Orders.Snapshot Event
session = record {
  tables = ("orders", (key, record { snapshot = stored; version = 3 }) ∷ []) ∷ [];
  inbox = [];
  outbox = [];
  attempts = [];
  writes = 0;
}

abbrev full_session : Tx String Orders.Snapshot Event
full_session = record session {
  tables =
      ("orders", (key, record { snapshot = record stored { status = placed }; version = 3 }) ∷ [])
      ∷ [];
}

abbrev attached : MessageContext
attached = record { correlation_id = "c-1"; causation_id = ""; traceparent = ""; tracestate = "" }

abbrev identity : Identity
identity = record { occurred_at = pos 50; message_ids = "m-1" ∷ [] }

abbrev origin : Origin
origin = record { destination = "orders"; aggregate_type = "order"; aggregate_id = "o-1" }

abbrev command : AddItem
command = record { sku = "ink"; quantity = pos 1; at = pos 50 }

abbrev loader : String → Result (Orders.Snapshot × ℕ) → Result (Order × ℕ)
loader = or_new (λ id. new_order id (pos 2)) from_snapshot

abbrev outcome :
    Tx String Orders.Snapshot Event
    → Tx String Orders.Snapshot Event × Result (Outcome ItemAccepted)
outcome =
    decide (ports_of orders here) attached identity origin snapshot "o-1" loader (add_item command)

adds :
    outcome session ≡ ((outcome session).0, ok (accept (record { order = "o-1"; items = pos 2 })))
unfolding decide settle publish enqueue enqueue_each Store.enqueue load save save_as rows_of lookup
    insert scoped_key load_key violation violation_from add_item decide_add_item decide_over
    snapshot from_snapshot
adds = refl

decide-accept_example :
    Written orders here attached identity origin snapshot "o-1" loader
      (add_item command)
      session
      (outcome session).0
      (record { order = "o-1"; items = pos 2 })
decide-accept_example =
    decide-accept orders here attached identity origin snapshot "o-1" loader (add_item command)
      session (outcome session).0 (record { order = "o-1"; items = pos 2 }) adds

refuses :
    (outcome full_session).1
    ≡ ok (
        refuse
          (record { code = "orders/order-not-open"; message = "order is not open"; details = [] }))
unfolding decide settle publish enqueue enqueue_each Store.enqueue load save save_as rows_of lookup
    insert scoped_key load_key violation violation_from add_item decide_add_item decide_over
    snapshot from_snapshot
refuses = refl

refuses-IsRefusal : IsRefusal (outcome full_session).1
refuses-IsRefusal = (
  (λ response same. absurd (ground (arith, refuses))),
  (λ same. absurd (ground (arith, refuses))),
)

decide_refused_example : Unwritten orders here "o-1" full_session (outcome full_session).0
decide_refused_example =
    decide_refused orders here attached identity origin snapshot "o-1" loader (add_item command)
      full_session refuses-IsRefusal

abbrev asked : List (Call String Orders.Snapshot)
asked = loads key ∷ saves key stored 3 ∷ saves key stored 3 ∷ loads key ∷ []

run_tx-run_cells_example : run_tx orders asked session ≡ run_cells asked (cells_of orders session)
run_tx-run_cells_example = run_tx-run_cells orders asked session refl
