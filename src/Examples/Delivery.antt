-- ===== src/Examples/Delivery.antt =====
-- A partition whose records are acknowledged out of order.
use dmpf.Prelude.{◌≡◌, List, [], ◌∷◌, some}
use dmpf.Prelude.Int.{ℤ, pos}
use dmpf.Kafka.Cursor.{Cursor, Tracked}
use dmpf.Kafka.Cursor.Acked.{IsWaiting, last_of, acked_prefix}
use dmpf.Kafka.Cursor.Prefix.{
  Move, deliver, acknowledge, advance, start, step, run, delivered, IsDone, run-committed,
}

abbrev offset_of : ℤ → ℤ
offset_of r = r

abbrev traffic : List (Move ℤ)
traffic =
    deliver (pos 7)
    ∷ deliver (pos 8)
    ∷ deliver (pos 9)
    ∷ acknowledge (pos 8)
    ∷ advance
    ∷ acknowledge (pos 7)
    ∷ advance
    ∷ []

run-committed_example :
    let s = run offset_of start traffic in
    ((done : List ℤ) × IsDone offset_of s (delivered offset_of traffic) done)
    × IsWaiting (step offset_of s advance).cursor
    × ((t : Tracked ℤ) (c : Cursor ℤ)
        → s.cursor ≡ t ∷ c
        → (step offset_of
            (step offset_of s (acknowledge (offset_of t.record_of)))
            advance).committed
          ≡ last_of (some t.record_of) (acked_prefix c))
run-committed_example = run-committed offset_of traffic
