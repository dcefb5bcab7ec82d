-- ===== src/Reservations/Snapshots.antt =====
-- The persisted form of a reservation.
use dmpf.Prelude.{◌≡◌, refl, ◌↔◌, true, arith}
use text.Mathlib.TextEquality.{eq_iff}
use dmpf.Prelude.Int.{eq_of_parts}
use dmpf.Reservations.{Reservation, Snapshot, snapshot, from_snapshot, equal}

-- A reservation is rebuilt from its snapshot as it was, and two snapshots compare equal exactly when they
-- are the same.
pub from_snapshot_of_reservation :
    (r : Reservation) (s t : Snapshot)
    → (from_snapshot (snapshot r) ≡ r) × ((equal s t ≡ true) ↔ (s ≡ t))
unfolding from_snapshot snapshot equal
from_snapshot_of_reservation r s t =
    (refl, ground (arith, eq_iff s.order t.order, eq_of_parts s.items t.items))
