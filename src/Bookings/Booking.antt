-- ===== src/Bookings/Booking.antt =====
-- apps/backend/bookings/domain: booking.go, reserve.go, cancel.go.
pub mod Validity
pub mod Snapshots
use dmpf.Prelude.{
  String, string_eq, Bool, ◌&&◌, ◌||◌, List, [], ◌∷◌, ◌++◌, true, false, ◌==◌, not, if◌then◌else◌,
}
use dmpf.Prelude.Int.{ℤ, pos, ltb_ℤ, eqb_ℤ}
use dmpf.Prelude.Decimal.{itoa}
use dmpf.Domain.{Decision, Detail, accept, refuse, decide_over, events_of}

pub data BookingStatus : Type 0 where
  new reserved cancelled : BookingStatus

pub record ReserveBooking : Type 0 where
  pub resource_id : String
  pub quantity : ℤ
  pub at : ℤ

pub record CancelBooking : Type 0 where
  pub at : ℤ

pub record ReservedResponse : Type 0 where
  pub booking_id : String

pub record CancelledResponse : Type 0 where
  pub booking_id : String

pub data Event : Type 0 where
  booking_reserved : (booking resource : String) (quantity at : ℤ) → Event
  booking_cancelled : (booking : String) (at : ℤ) → Event

abbrev pub event_name : Event → String
event_name (booking_reserved b r q t) = "bookings.booking-reserved"
event_name (booking_cancelled b t) = "bookings.booking-cancelled"

pub record Booking : Type 0 where
  pub id : String
  pub resource_id : String
  pub quantity : ℤ
  pub status : BookingStatus
  pub reserved_at : ℤ

pub new_booking : String → Booking
new_booking id = record {
  id = id;
  resource_id = "";
  quantity = pos 0;
  status = new;
  reserved_at = pos 0;
}

pub record BookingSnapshot : Type 0 where
  pub id : String
  pub resource_id : String
  pub quantity : ℤ
  pub status : BookingStatus
  pub reserved_at : ℤ

pub from_booking_snapshot : BookingSnapshot → Booking
from_booking_snapshot s = record {
  id = s.id;
  resource_id = s.resource_id;
  quantity = s.quantity;
  status = s.status;
  reserved_at = s.reserved_at;
}

pub snapshot : Booking → BookingSnapshot
snapshot b = record {
  id = b.id;
  resource_id = b.resource_id;
  quantity = b.quantity;
  status = b.status;
  reserved_at = b.reserved_at;
}

abbrev pub same_status : BookingStatus → BookingStatus → Bool
same_status new new = true
same_status reserved reserved = true
same_status cancelled cancelled = true
same_status _ _ = false

pub equal : BookingSnapshot → BookingSnapshot → Bool
equal s t =
    s.id == t.id
    && s.resource_id == t.resource_id
    && eqb_ℤ s.quantity t.quantity
    && same_status s.status t.status
    && eqb_ℤ s.reserved_at t.reserved_at

abbrev clone : Booking → Booking
clone b = record {
  id = b.id;
  resource_id = b.resource_id;
  quantity = b.quantity;
  status = b.status;
  reserved_at = b.reserved_at;
}

abbrev pub code_quantity_out_of_range : String
code_quantity_out_of_range = "resource-scheduling/booking/quantity-out-of-range"

abbrev pub code_not_reserved : String
code_not_reserved = "resource-scheduling/booking/not-reserved"

abbrev pub quantity_details : ℤ → List Detail
quantity_details quantity = record { key = "quantity"; value = itoa quantity } ∷ []

decide_reserve : ReserveBooking → Booking → Booking × Decision Event ReservedResponse
decide_reserve cmd next =
    if ltb_ℤ cmd.quantity (pos 1) || ltb_ℤ (pos 100) cmd.quantity
    then (
      next,
      refuse code_quantity_out_of_range "quantity must be between 1 and 100"
          (quantity_details cmd.quantity),
    )
    else (
      record next {
        resource_id = cmd.resource_id;
        quantity = cmd.quantity;
        status = reserved;
        reserved_at = cmd.at;
      },
      accept (record { booking_id = next.id })
          (booking_reserved next.id cmd.resource_id cmd.quantity cmd.at ∷ []),
    )

pub reserve : ReserveBooking → Booking → Booking × Decision Event ReservedResponse
unfolding decide_reserve decide_over
reserve cmd b = decide_over b clone (decide_reserve cmd)

abbrev is_reserved : BookingStatus → Bool
is_reserved reserved = true
is_reserved _ = false

decide_cancel : CancelBooking → Booking → Booking × Decision Event CancelledResponse
decide_cancel cmd next =
    if not (is_reserved next.status)
    then (next, refuse code_not_reserved "booking is not reserved" [])
    else (
      record next { status = cancelled },
      accept (record { booking_id = next.id }) (booking_cancelled next.id cmd.at ∷ []),
    )

pub cancel : CancelBooking → Booking → Booking × Decision Event CancelledResponse
unfolding decide_cancel decide_over
cancel cmd b = decide_over b clone (decide_cancel cmd)

-- The commands of the aggregate, in the order in which they reach it.
pub data Command : Type 0 where
  reserve_it : ReserveBooking → Command
  cancel_it : CancelBooking → Command

pub step : Booking → Command → Booking × List Event
unfolding reserve cancel
step b (reserve_it cmd) = let (next, d) = reserve cmd b in (next, events_of d)
step b (cancel_it cmd) = let (next, d) = cancel cmd b in (next, events_of d)

pub run : Booking → List Command → Booking × List Event
unfolding step
run b [] = (b, [])
run b (c ∷ cs) = let (next, es) = step b c in let (last, rest) = run next cs in (last, es ++ rest)
