-- ===== src/Orders/Service.antt =====
-- apps/backend/orders/application/service.go, add_item.go, place_order.go, find_order.go: the operations of
-- the orders service as commands of the executor. `attached` is the message context on the carrier, and
-- the table is the one that the transaction binds the repository to.
use dmpf.Prelude.{String, string_eq, List, some, true}
use dmpf.Prelude.Int.{ℤ}
use dmpf.Ports.Results.{Result, ok, ◌>>=◌}
use dmpf.Ports.Context.{Context}
use dmpf.Ports.Transaction.{MessageContext}
use dmpf.Ports.Instrumentation.{Report}
use dmpf.Memory.Rows.{Table}
use dmpf.Memory.Store.{Store, Tx, ports_of, read}
use dmpf.Orders.{
  Event, Snapshot, ItemAccepted, PlacedResponse, new_order, snapshot, from_snapshot, add_item,
  place,
}
use dmpf.Orders.Codecs.{item_accepted_codec, placed_codec}
use dmpf.Application.Decide.{Origin, decide, or_new, existing}
use dmpf.Application.OutcomeCodec.{Texts}
use dmpf.Application.Fingerprint.{new_fingerprint, add_string, add_int}
use dmpf.Application.Authorize.{Authorize}
use dmpf.Application.Idempotent.{IdempotencyPolicy}
use dmpf.Application.Execute.{Executor, Command, query}

abbrev pub command_consumer : String
command_consumer = "orders.commands"

-- The closed union of the entry points of the service.
pub data Operation : Type 0 where
  add_item_op : (order sku : String) (quantity : ℤ) → Operation
  place_order_op : (order : String) → Operation
  find_order_op : (order : String) → Operation

abbrev pub origin : String → Origin
origin order = record {
  destination = "orders.events";
  aggregate_type = "orders.Order";
  aggregate_id = order;
}

-- The inbox of commands is the one of CommandConsumer.
abbrev pub executor : IdempotencyPolicy → Authorize Operation → Executor Operation
executor policy authorize = record {
  inbox = record { consumer = command_consumer; commands = true };
  consumer = command_consumer;
  policy = policy;
  authorize = authorize;
}

module _ (t : Texts) (table : Table String Snapshot) (attached : MessageContext) where
  abbrev pub add_item_command :
      ℤ → String → String → ℤ → Command (Tx String Snapshot Event) Operation ItemAccepted
  add_item_command limit order sku quantity = record {
    operation = "orders.AddItem";
    object = order;
    input = add_item_op order sku quantity;
    fingerprint = some (
        add_int (add_string t (add_string t (new_fingerprint t "orders.AddItem") order) sku)
          quantity);
    codec = item_accepted_codec t;
    run = λ ctx identity.
        decide (ports_of table ctx) attached identity (origin order) snapshot order
          (or_new (λ id. new_order id limit) from_snapshot)
          (add_item (record { sku = sku; quantity = quantity; at = identity.occurred_at }));
  }

  abbrev pub place_order_command :
      String → Command (Tx String Snapshot Event) Operation PlacedResponse
  place_order_command order = record {
    operation = "orders.PlaceOrder";
    object = order;
    input = place_order_op order;
    fingerprint = some (add_string t (new_fingerprint t "orders.PlaceOrder") order);
    codec = placed_codec t;
    run = λ ctx identity.
        decide (ports_of table ctx) attached identity (origin order) snapshot order
          (existing from_snapshot) (place (record { at = identity.occurred_at }));
  }

-- A query reads the store outside any transaction.
abbrev pub find_order :
    Table String Snapshot
    → Authorize Operation
    → String
    → Context
    → Store String Snapshot Event
    → List Report × Result Snapshot
find_order table authorize order ctx s =
    query authorize "orders.FindOrder" (find_order_op order)
      (λ there. read table there order s >>= λ found. ok found.0) ctx
