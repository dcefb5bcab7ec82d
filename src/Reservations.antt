-- ===== src/Reservations.antt =====
-- apps/backend/reservations/domain: the Reservation aggregate, with the decisions Reserve and Cancel.
pub mod Lifecycle
pub mod Snapshots
use dmpf.Prelude.{
  String, string_eq, Bool, ◌&&◌, List, [], ◌∷◌, ◌++◌, true, false, ◌==◌, if◌then◌else◌,
}
use dmpf.Prelude.Int.{ℤ, pos, leb_ℤ, eqb_ℤ}
use dmpf.Domain.{Decision, accept, refuse, decide_over, events_of}

pub data Status : Type 0 where
  pending confirmed cancelled : Status

pub record Reserve : Type 0 where
  pub items : ℤ
  pub at : ℤ

pub record Cancel : Type 0 where
  pub at : ℤ

-- The two event types of the context.
pub data Event : Type 0 where
  reservation_confirmed : (order : String) (items : ℤ) (at : ℤ) → Event
  reservation_cancelled : (order : String) (at : ℤ) → Event

abbrev pub event_name : Event → String
event_name (reservation_confirmed o n t) = "reservations.reservation-confirmed"
event_name (reservation_cancelled o t) = "reservations.reservation-cancelled"

pub record ReservedResponse : Type 0 where
  pub order : String
  pub items : ℤ

pub record CancelledResponse : Type 0 where
  pub order : String

pub record Reservation : Type 0 where
  pub order : String
  pub items : ℤ
  pub status : Status

abbrev pub new_reservation : String → Reservation
new_reservation order = record { order = order; items = pos 0; status = pending }

pub record Snapshot : Type 0 where
  pub order : String
  pub items : ℤ
  pub status : Status

pub from_snapshot : Snapshot → Reservation
from_snapshot s = record { order = s.order; items = s.items; status = s.status }

pub snapshot : Reservation → Snapshot
snapshot r = record { order = r.order; items = r.items; status = r.status }

abbrev pub same_status : Status → Status → Bool
same_status pending pending = true
same_status confirmed confirmed = true
same_status cancelled cancelled = true
same_status _ _ = false

pub equal : Snapshot → Snapshot → Bool
equal s t = s.order == t.order && eqb_ℤ s.items t.items && same_status s.status t.status

abbrev clone : Reservation → Reservation
clone r = record { order = r.order; items = r.items; status = r.status }

abbrev pub code_nothing_to_reserve : String
code_nothing_to_reserve = "reservations/nothing-to-reserve"

abbrev pub code_already_reserved : String
code_already_reserved = "reservations/already-reserved"

abbrev pub code_already_cancelled : String
code_already_cancelled = "reservations/already-canceled"

abbrev pub code_cancelled : String
code_cancelled = "reservations/reservation-canceled"

-- The `switch` on the status, and what follows it.
confirm : Status → Reserve → Reservation → Reservation × Decision Event ReservedResponse
confirm confirmed cmd next =
    (next, refuse code_already_reserved "reservation is already confirmed" [])
confirm cancelled cmd next = (next, refuse code_cancelled "reservation is canceled" [])
confirm pending cmd next = (
  record next { status = confirmed; items = cmd.items },
  accept (record { order = next.order; items = cmd.items })
      (reservation_confirmed next.order cmd.items cmd.at ∷ []),
)

decide_reserve : Reserve → Reservation → Reservation × Decision Event ReservedResponse
unfolding confirm
decide_reserve cmd next =
    if leb_ℤ cmd.items (pos 0)
    then (next, refuse code_nothing_to_reserve "nothing to reserve" [])
    else confirm next.status cmd next

pub reserve : Reserve → Reservation → Reservation × Decision Event ReservedResponse
unfolding decide_reserve decide_over
reserve cmd r = decide_over r clone (decide_reserve cmd)

decide_cancel : Status → Cancel → Reservation → Reservation × Decision Event CancelledResponse
decide_cancel confirmed cmd next =
    (next, refuse code_already_reserved "reservation is already confirmed" [])
decide_cancel cancelled cmd next =
    (next, refuse code_already_cancelled "reservation is already canceled" [])
decide_cancel pending cmd next = (
  record next { status = cancelled },
  accept (record { order = next.order }) (reservation_cancelled next.order cmd.at ∷ []),
)

pub cancel : Cancel → Reservation → Reservation × Decision Event CancelledResponse
unfolding decide_cancel decide_over
cancel cmd r = decide_over r clone (λ next. decide_cancel next.status cmd next)

-- The commands of the aggregate, in the order in which they reach it.
pub data Command : Type 0 where
  reserve_it : Reserve → Command
  cancel_it : Cancel → Command

pub step : Reservation → Command → Reservation × List Event
unfolding reserve cancel
step r (reserve_it cmd) = let (next, d) = reserve cmd r in (next, events_of d)
step r (cancel_it cmd) = let (next, d) = cancel cmd r in (next, events_of d)

pub run : Reservation → List Command → Reservation × List Event
unfolding step
run r [] = (r, [])
run r (c ∷ cs) = let (next, es) = step r c in let (last, rest) = run next cs in (last, es ++ rest)
