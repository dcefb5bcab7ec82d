-- ===== src/Bookings/Booking/Validity.antt =====
-- What holds of a booking after any commands, and every branch of the two decisions.
use dmpf.Prelude.{◌≡◌, ◌≢◌, ◌⊎◌, List, [], ◌∷◌, String, arith}
use dmpf.Prelude.Int.{pos, ◌≤ℤ◌, ◌<ℤ◌}
use dmpf.Domain.{accept, refuse}
use dmpf.Bookings.Booking.{
  Booking, booking_reserved, booking_cancelled, Command, reserve_it, cancel_it, new, reserved,
  cancelled, ReserveBooking, CancelBooking, reserve, cancel, step, run, new_booking,
  code_quantity_out_of_range, code_not_reserved, quantity_details,
}

-- A booking that was ever reserved holds a quantity from 1 to 100; a new one holds none.
pub record Inv (b : Booking) : Type 0 where
  pub used : b.status ≢ new → (pos 1 ≤ℤ b.quantity) × (b.quantity ≤ℤ pos 100)
  pub unused : b.status ≡ new → (b.quantity ≡ pos 0) × (b.reserved_at ≡ pos 0)

step-Inv : (b : Booking) (c : Command) → Inv b → Inv (step b c).0
unfolding step
step-Inv b (reserve_it cmd) v = ground arith
step-Inv b (cancel_it cmd) v = ground arith

run-Inv : (b : Booking) (cs : List Command) → Inv b → Inv (run b cs).0
unfolding run
run-Inv b [] v = v
run-Inv b (c ∷ cs) v = run-Inv (step b c).0 cs (step-Inv b c v)

-- From a new booking, after any commands: reserved or cancelled means a quantity from 1 to 100, and
-- new means quantity 0 and no reservation instant.
pub run-new_booking-Inv : (id : String) (cs : List Command) → Inv (run (new_booking id) cs).0
unfolding new_booking
run-new_booking-Inv id cs = run-Inv _ cs (ground arith)

-- Reserve never reads the status: over any booking, a cancelled or already reserved one included, a
-- quantity from 1 to 100 replaces the reservation, and any other quantity is refused and changes nothing.
pub reserve_replaces :
    (cmd : ReserveBooking) (b : Booking)
    → ((cmd.quantity <ℤ pos 1) ⊎ (pos 100 <ℤ cmd.quantity)
        → reserve cmd b ≡ (
          b,
          refuse code_quantity_out_of_range "quantity must be between 1 and 100"
              (quantity_details cmd.quantity),
        ))
      × (pos 1 ≤ℤ cmd.quantity
          → cmd.quantity ≤ℤ pos 100
          → reserve cmd b ≡ (
            record b {
              resource_id = cmd.resource_id;
              quantity = cmd.quantity;
              status = reserved;
              reserved_at = cmd.at;
            },
            accept
                (record { booking_id = b.id })
                (booking_reserved b.id cmd.resource_id cmd.quantity cmd.at ∷ []),
          ))
unfolding reserve
reserve_replaces cmd b = ((λ p. ground arith), (λ p q. ground arith))

-- A reserved booking is cancelled once: the second Cancel is refused and leaves it as the first did.
pub cancel_twice :
    (first second : CancelBooking) (b : Booking)
    → b.status ≡ reserved
    → let q = record b { status = cancelled } in
      (cancel first b
        ≡ (q, accept (record { booking_id = b.id }) (booking_cancelled b.id first.at ∷ [])))
      × (cancel second q ≡ (q, refuse code_not_reserved "booking is not reserved" []))
unfolding cancel
cancel_twice first second b h = ground arith
