-- ===== src/Orders/Replay.antt =====
-- The events of an order tell its whole history: replaying them rebuilds the state.
use dmpf.Prelude.{◌≡◌, refl, List, [], ◌∷◌, ◌++◌, ◌∙◌, arith}
use dmpf.Orders.{Order, Event, item_added, order_placed, Command, add, place_it, placed, step, run}

-- What an event says of the state, with no reference to the decisions.
abbrev pub apply : Order → Event → Order
apply o (item_added id sku quantity at) = record o {
  items = o.items ++ record { sku = sku; quantity = quantity } ∷ [];
}
apply o (order_placed id items at) = record o { status = placed }

pub replay : Order → List Event → Order
replay o [] = o
replay o (e ∷ es) = replay (apply o e) es

pub replay-append : (o : Order) (xs ys : List Event) → replay o (xs ++ ys) ≡ replay (replay o xs) ys
unfolding replay
replay-append o [] ys = refl
replay-append o (x ∷ xs) ys = replay-append (apply o x) xs ys

replay-step : (o : Order) (c : Command) → replay o (step o c).1 ≡ (step o c).0
unfolding replay step
replay-step o (add cmd) = ground arith
replay-step o (place_it cmd) = ground arith

-- For every order and every sequence of commands, refused ones included, replaying the emitted
-- events over the order that the commands met gives the order that they left.
pub replay-run : (o : Order) (cs : List Command) → replay o (run o cs).1 ≡ (run o cs).0
unfolding run
replay-run o [] = unfold replay in refl
replay-run o (c ∷ cs) =
    replay-append o (step o c).1 (run (step o c).0 cs).1
    ∙ (rw (replay-step o c) (replay-run (step o c).0 cs))
