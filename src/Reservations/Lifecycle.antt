-- ===== src/Reservations/Lifecycle.antt =====
-- The first decision on a pending reservation wins.
use dmpf.Prelude.{◌≡◌, refl, ◌≢◌, ◌⊎◌, inl, inr, List, [], ◌∷◌, arith, Bool-cases}
use dmpf.Prelude.Int.{pos, ◌≤ℤ◌, ◌<ℤ◌, leb_ℤ}
use dmpf.Domain.{accept, refuse}
use dmpf.Reservations.{
  Reservation, Event, reservation_confirmed, reservation_cancelled, Command, reserve_it, cancel_it,
  pending, confirmed, cancelled, Reserve, reserve, step, run, code_nothing_to_reserve,
  code_already_reserved, code_cancelled,
}

-- What an event says of the state, with no reference to the decisions.
abbrev pub apply : Reservation → Event → Reservation
apply r (reservation_confirmed order items at) = record r { status = confirmed; items = items }
apply r (reservation_cancelled order at) = record r { status = cancelled }

pub replay : Reservation → List Event → Reservation
replay r [] = r
replay r (e ∷ es) = replay (apply r e) es

step_of_decided : (r : Reservation) (c : Command) → r.status ≢ pending → step r c ≡ (r, [])
unfolding step
step_of_decided r (reserve_it cmd) h = ground arith
step_of_decided r (cancel_it cmd) h = ground arith

-- A confirmed or cancelled reservation takes no further decision: whatever commands follow, it stays
-- as it is and emits nothing.
pub run_of_decided : (r : Reservation) (cs : List Command) → r.status ≢ pending → run r cs ≡ (r, [])
unfolding run
run_of_decided r [] h = refl
run_of_decided r (c ∷ cs) h = rw (step_of_decided r c h, run_of_decided r cs h)

-- What a command does to a pending reservation: nothing at all, or it settles it with one event.
abbrev pub Settles : Reservation → Reservation × List Event → Type 0
Settles r (q, es) =
    ((q ≡ r) × (es ≡ [])) ⊎ ((e : Event) × (es ≡ e ∷ []) × (q ≡ apply r e) × (q.status ≢ pending))

step-Settles : (r : Reservation) (c : Command) → r.status ≡ pending → Settles r (step r c)
unfolding step
step-Settles r (reserve_it cmd) h = elim (Bool-cases (leb_ℤ cmd.items (pos 0))) [
  | inl none_left ↦ inl (ground arith)
  | inr some_left ↦
      inr (reservation_confirmed r.order cmd.items cmd.at, ground arith, ground arith, ground arith)
]
step-Settles r (cancel_it cmd) h =
    inr (reservation_cancelled r.order cmd.at, ground arith, ground arith, ground arith)

-- Over any commands a pending reservation is settled at most once: either it comes out as it was and
-- no event was emitted, or exactly one event was, which gives the state it came out in.
pub run-Settles : (r : Reservation) (cs : List Command) → r.status ≡ pending → Settles r (run r cs)
unfolding run
run-Settles r [] h = inl (refl, refl)
run-Settles r (c ∷ cs) h = elim (step-Settles r c h) [
  | inl (same, quiet) ↦ rw (same, quiet) (run-Settles r cs h)
  | inr (e, one, next, settled) ↦
      rw (run_of_decided (step r c).0 cs settled, one) (inr (e, refl, next, settled))
]

-- Every branch of Reserve: a count that is not positive is refused first, then a confirmed and a
-- cancelled reservation with a code each, all three leaving the reservation as it was; a pending one
-- is confirmed with the count and emits one event.
pub reserve_cases :
    (cmd : Reserve) (r : Reservation)
    → (cmd.items ≤ℤ pos 0
        → reserve cmd r ≡ (r, refuse code_nothing_to_reserve "nothing to reserve" []))
      × (pos 0 <ℤ cmd.items
          → r.status ≡ confirmed
          → reserve cmd r ≡ (r, refuse code_already_reserved "reservation is already confirmed" []))
      × (pos 0 <ℤ cmd.items
          → r.status ≡ cancelled
          → reserve cmd r ≡ (r, refuse code_cancelled "reservation is canceled" []))
      × (pos 0 <ℤ cmd.items
          → r.status ≡ pending
          → reserve cmd r ≡ (
            record r { status = confirmed; items = cmd.items },
            accept
                (record { order = r.order; items = cmd.items })
                (reservation_confirmed r.order cmd.items cmd.at ∷ []),
          ))
unfolding reserve
reserve_cases cmd r =
    ((λ p. ground arith), (λ p q. ground arith), (λ p q. ground arith), (λ p q. ground arith))
