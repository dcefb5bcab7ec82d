-- ===== src/Orders/Bounds.antt =====
-- What holds of an order after any commands, and every branch of the two decisions.
use dmpf.Prelude.{
  String, ◌+◌, ◌≤◌, ◌<◌, ◌≡◌, refl, ◌≢◌, List, [], ◌∷◌, ◌++◌, length, length-append, arith,
}
use dmpf.Prelude.Int.{ℤ, pos, ◌≤ℤ◌, ◌<ℤ◌, pos_part}
use dmpf.Domain.{accept, refuse}
use dmpf.Orders.{
  Order, item_added, order_placed, Command, add, place_it, placed, open_status, AddItem, PlaceOrder,
  new_order, step, run, add_item, place, limit_details, code_order_not_open, code_order_empty,
  code_item_limit_exceeded,
}

pub record Inv (o : Order) : Type 0 where
  pub within_limit : length o.items ≤ pos_part o.item_limit
  pub placed_has_items : o.status ≡ placed → 0 < length o.items

step-Inv : (o : Order) (c : Command) → Inv o → Inv (step o c).0
unfolding step
step-Inv o (add cmd) v =
    ground (arith, length-append o.items (record { sku = cmd.sku; quantity = cmd.quantity } ∷ []))
step-Inv o (place_it cmd) v = ground arith

run-Inv : (o : Order) (cs : List Command) → Inv o → Inv (run o cs).0
unfolding run
run-Inv o [] v = v
run-Inv o (c ∷ cs) v = run-Inv (step o c).0 cs (step-Inv o c v)

-- From a new order, after any commands, the items stay within the limit and an order that is placed
-- has an item.
pub run-new_order-Inv :
    (id : String) (limit : ℤ) (cs : List Command) → Inv (run (new_order id limit) cs).0
unfolding new_order
run-new_order-Inv id limit cs = run-Inv _ cs (ground arith)

-- Every branch of AddItem: a placed order refuses, an order at its limit refuses and names the limit
-- and the count that was tried, and any other takes the item at its end and emits one event; both
-- refusals leave the order as it was.
pub add_item_cases :
    (cmd : AddItem) (o : Order)
    → (o.status ≡ placed → add_item cmd o ≡ (o, refuse code_order_not_open "order is not open" []))
      × (o.status ≡ open_status
          → o.item_limit ≤ℤ pos (length o.items)
          → add_item cmd o ≡ (
            o,
            refuse code_item_limit_exceeded "item limit exceeded"
                (limit_details o.item_limit (length o.items + 1)),
          ))
      × (o.status ≡ open_status
          → pos (length o.items) <ℤ o.item_limit
          → add_item cmd o ≡ (
            record o { items = o.items ++ record { sku = cmd.sku; quantity = cmd.quantity } ∷ [] },
            accept
                (record { order = o.id; items = pos (length o.items + 1) })
                (item_added o.id cmd.sku cmd.quantity cmd.at ∷ []),
          ))
unfolding add_item
add_item_cases cmd o = (
  (λ p. ground arith),
  (λ p q. ground arith),
  (λ p q.
      ground
        (arith, length-append o.items (record { sku = cmd.sku; quantity = cmd.quantity } ∷ []))),
)

-- Every branch of Place: a placed order refuses, an open order without items refuses, both leaving the
-- order as it was, and an open order with items becomes placed and emits one event with their number.
pub place_cases :
    (cmd : PlaceOrder) (o : Order)
    → (o.status ≡ placed → place cmd o ≡ (o, refuse code_order_not_open "order is not open" []))
      × (o.status ≡ open_status
          → o.items ≡ []
          → place cmd o ≡ (o, refuse code_order_empty "order has no items" []))
      × (o.status ≡ open_status
          → o.items ≢ []
          → place cmd o ≡ (
            record o { status = placed },
            accept (record { order = o.id }) (order_placed o.id (length o.items) cmd.at ∷ []),
          ))
unfolding place
place_cases cmd o = ((λ p. ground arith), (λ p q. ground arith), (λ p q. ground arith))

step_of_placed : (o : Order) (c : Command) → o.status ≡ placed → step o c ≡ (o, [])
unfolding step
step_of_placed o (add cmd) h = ground arith
step_of_placed o (place_it cmd) h = ground arith

-- A placed order takes no command any more: whatever follows, it stays as it is and emits nothing.
pub run_of_placed : (o : Order) (cs : List Command) → o.status ≡ placed → run o cs ≡ (o, [])
unfolding run
run_of_placed o [] h = refl
run_of_placed o (c ∷ cs) h = rw (step_of_placed o c h, run_of_placed o cs h)
