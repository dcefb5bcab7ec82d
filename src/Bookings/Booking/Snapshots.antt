-- ===== src/Bookings/Booking/Snapshots.antt =====
-- The persisted form of a booking.
use dmpf.Prelude.{◌≡◌, refl, ◌↔◌, true, arith}
use text.Mathlib.TextEquality.{eq_iff}
use dmpf.Prelude.Int.{eq_of_parts}
use dmpf.Bookings.Booking.{Booking, BookingSnapshot, snapshot, from_booking_snapshot, equal}

-- A booking is rebuilt from its snapshot as it was, and two snapshots compare equal exactly when they are
-- the same.
pub from_booking_snapshot-snapshot :
    (b : Booking) (s t : BookingSnapshot)
    → (from_booking_snapshot (snapshot b) ≡ b) × ((equal s t ≡ true) ↔ (s ≡ t))
unfolding from_booking_snapshot snapshot equal
from_booking_snapshot-snapshot b s t = (
  refl,
  ground (
    arith,
    eq_iff s.id t.id,
    eq_iff s.resource_id t.resource_id,
    eq_of_parts s.quantity t.quantity,
    eq_of_parts s.reserved_at t.reserved_at,
  ),
)
