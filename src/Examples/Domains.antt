-- ===== src/Examples/Domains.antt =====
-- The aggregates of the three contexts at concrete orders, reservations and bookings.
use dmpf.Prelude.{◌≡◌, refl, List, [], ◌∷◌}
use dmpf.Prelude.Int.{pos}
use dmpf.Orders as Orders
use dmpf.Orders.{Order, add, place_it, new_order, placed, open_status}
use dmpf.Orders.Replay.{replay, replay-run}
use dmpf.Orders.Bounds as Bounds
use dmpf.Reservations as Reservations
use dmpf.Reservations.{Reservation, pending, confirmed, reserve_it, cancel_it}
use dmpf.Reservations.Lifecycle.{Settles, run-Settles}
use dmpf.Bookings.Booking as Bookings
use dmpf.Bookings.Booking.{new_booking}

abbrev basket : Order
basket = record {
  id = "o-1";
  status = open_status;
  items = record { sku = "pen"; quantity = pos 2 } ∷ [];
  item_limit = pos 2;
}

abbrev shopping : List Orders.Command
shopping =
    add (record { sku = "ink"; quantity = pos 1; at = pos 10 })
    ∷ add (record { sku = "nib"; quantity = pos 1; at = pos 20 })
    ∷ place_it (record { at = pos 30 })
    ∷ []

replay-run_example : replay basket (Orders.run basket shopping).1 ≡ (Orders.run basket shopping).0
replay-run_example = replay-run basket shopping

run-new_order-Inv_example : Bounds.Inv (Orders.run (new_order "o-2" (pos 2)) shopping).0
run-new_order-Inv_example = Bounds.run-new_order-Inv "o-2" (pos 2) shopping

abbrev kept : Orders.Snapshot
kept = record { id = "o-1"; status = open_status; item_limit = pos 2; items = basket.items }

abbrev other : Orders.Snapshot
other = record kept { items = [] }

abbrev waiting : Reservation
waiting = record { order = "o-1"; items = pos 0; status = pending }

abbrev settled : Reservation
settled = record { order = "o-1"; items = pos 3; status = confirmed }

abbrev rivals : List Reservations.Command
rivals =
    reserve_it (record { items = pos 3; at = pos 10 }) ∷ cancel_it (record { at = pos 20 }) ∷ []

run-Settles_example : Settles waiting (Reservations.run waiting rivals)
run-Settles_example = run-Settles waiting rivals refl

abbrev visits : List Bookings.Command
visits =
    Bookings.reserve_it (record { resource_id = "room"; quantity = pos 7; at = pos 10 })
    ∷ Bookings.cancel_it (record { at = pos 20 })
    ∷ Bookings.reserve_it (record { resource_id = "room"; quantity = pos 101; at = pos 30 })
    ∷ []
