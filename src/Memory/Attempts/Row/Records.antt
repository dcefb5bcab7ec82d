-- ===== src/Memory/Attempts/Row/Records.antt =====
-- What an attempt keeps once it is recorded.
use dmpf.Prelude.{
  ℕ, ◌+◌, ◌≤◌, ◌<◌, ◌≡◌, refl, ◌≢◌, ◌⊎◌, inl, inr, String, true, false, List, [], ◌∷◌, ◌++◌, arith,
  length, any, ◌==◌, beq_refl, sym, ◌∙◌, length-append, Bool-cases, string_eq,
}
use dmpf.Prelude.Int.{ℤ}
use dmpf.Ports.Attempts.{
  ExternalClass, no_class, Finding, no_finding, Observation, AttemptOutcome, recorded, unchanged,
  conflict, observe_duplicate, class_code, finding_code, max_attempt_entries,
}
use dmpf.Memory.Attempts.Row.{
  AttemptRow, is_saturated, is_terminal, close_row, finish_row, observe_row, record_finding,
}

class_code-injective : (a b : ExternalClass) → class_code a ≡ class_code b → a ≡ b
class_code-injective a b h = ground arith

finding_code-injective : (a b : Finding) → finding_code a ≡ finding_code b → a ≡ b
finding_code-injective a b h = ground arith

close_row_parts :
    (o : AttemptOutcome) (r : AttemptRow)
    → ((close_row o r).class ≡ o.class)
      × ((close_row o r).finished ≡ true)
      × ((close_row o r).conflicts ≡ r.conflicts)
      × (length (close_row o r).seen ≤ length r.seen + 1)
unfolding close_row
close_row_parts o r = ground (arith, length-append r.seen (o.observation.id ∷ []))

finish_row_first :
    (o : AttemptOutcome) (r : AttemptRow)
    → r.finished ≡ false
    → finish_row o r ≡ (close_row o r, record { result = recorded; class = o.class })
unfolding finish_row
finish_row_first o r h = ground arith

finish_row_later :
    (o : AttemptOutcome) (r : AttemptRow)
    → r.finished ≡ true
    → let (next, answer) = finish_row o r in
      (next.class ≡ r.class)
      × (next.finished ≡ true)
      × (answer.class ≡ r.class)
      × ((o.class ≡ r.class) ⊎ (o.presumed ≡ true) → (next ≡ r) × (answer.result ≡ unchanged))
      × (o.class ≢ r.class
          → o.presumed ≡ false
          → is_saturated r ≡ false
          → (answer.result ≡ conflict) × (length next.conflicts ≡ length r.conflicts + 1))
unfolding finish_row
finish_row_later o r h = ground (
  arith,
  class_code-injective r.class o.class,
  length-append r.conflicts
      (record { class = o.class; finding = no_finding; at = o.finished_at } ∷ []),
)

pub finish_row_closes : (o : AttemptOutcome) (r : AttemptRow) → (finish_row o r).0.finished ≡ true
finish_row_closes o r = elim (Bool-cases r.finished) [
  | inl finished ↦ (finish_row_later o r finished).1
  | inr unfinished ↦ rw (finish_row_first o r unfinished) (close_row_parts o r).1
]

-- The class under which an attempt is recorded first stays; the same outcome again changes nothing and
-- is answered with that class; another class is kept as a conflict while there is room, and a presumed
-- one is not.
pub finish_row_again :
    (o again : AttemptOutcome) (r : AttemptRow)
    → r.finished ≡ false
    → let closed = (finish_row o r).0 in
      let (next, answer) = finish_row again closed in
      ((finish_row o r).1 ≡ record { result = recorded; class = o.class })
      × (next.class ≡ o.class)
      × (next.finished ≡ true)
      × (answer.class ≡ o.class)
      × ((again.class ≡ o.class) ⊎ (again.presumed ≡ true)
          → (next ≡ closed) × (answer.result ≡ unchanged))
      × (again.class ≢ o.class
          → again.presumed ≡ false
          → is_saturated closed ≡ false
          → (answer.result ≡ conflict) × (length next.conflicts ≡ length closed.conflicts + 1))
finish_row_again o again r h =
    let first = finish_row_first o r h in
    let (same, closed, kept, room) = close_row_parts o r in
    let (class, stays, answer, repeated, contrary) =
      finish_row_later again (close_row o r) closed in
    rw first (
      refl,
      class ∙ same,
      stays,
      answer ∙ same,
      (λ p. repeated (elim p [ inl q ↦ inl (q ∙ sym same) | inr q ↦ inr q ])),
      (λ apart. contrary (λ p. apart (p ∙ same))),
    )

-- The lists of an attempt stay within their ceiling.
abbrev pub IsBounded : AttemptRow → Type 0
IsBounded r = (length r.seen ≤ max_attempt_entries) × (length r.conflicts ≤ max_attempt_entries)

pub finish_row-IsBounded :
    (o : AttemptOutcome) (r : AttemptRow)
    → (r.finished ≡ false → length r.seen < max_attempt_entries)
    → IsBounded r
    → IsBounded (finish_row o r).0
unfolding finish_row
finish_row-IsBounded o r open_room h =
    let (same, closed, kept, room) = close_row_parts o r in
    ground (
      arith,
      room,
      kept,
      length-append r.conflicts
          (record { class = o.class; finding = no_finding; at = o.finished_at } ∷ []),
    )

any-last : (id : String) (ids : List String) → any (λ i. i == id) (ids ++ id ∷ []) ≡ true
any-last id [] = ground (arith, beq_refl id)
any-last id (i ∷ ids) = ground (arith, any-last id ids)

observe_row_seen :
    (o : Observation) (now : ℤ) (n : ℕ) (r : AttemptRow)
    → any (λ i. i == o.id) r.seen ≡ true
    → ((observe_row o now n r).0 ≡ r) × ((observe_row o now n r).1.result ≡ observe_duplicate)
unfolding observe_row
observe_row_seen o now n r h = ground arith

seen-observe_row :
    (o : Observation) (now : ℤ) (n : ℕ) (r : AttemptRow)
    → is_saturated r ≡ false
    → any (λ i. i == o.id) (observe_row o now n r).0.seen ≡ true
unfolding observe_row record_finding
seen-observe_row o now n r h = ground (arith, any-last o.id r.seen)

-- An observation that was recorded is recognised when it is delivered again: the attempt does not change,
-- its query is not counted twice, and the answer is a duplicate.
pub observe_row_twice :
    (o : Observation) (now later : ℤ) (n : ℕ) (r : AttemptRow)
    → is_saturated r ≡ false
    → let once = (observe_row o now n r).0 in
      ((observe_row o later n once).0 ≡ once)
      × ((observe_row o later n once).1.result ≡ observe_duplicate)
observe_row_twice o now later n r h =
    observe_row_seen o later n (observe_row o now n r).0 (seen-observe_row o now n r h)

-- A finding that is terminal is never replaced, and the lists of the attempt stay within their ceiling.
pub observe_row_keeps :
    (o : Observation) (now : ℤ) (n : ℕ) (r : AttemptRow)
    → IsBounded r
    → let next = (observe_row o now n r).0 in
      (is_terminal r.finding ≡ true → next.finding ≡ r.finding)
      × IsBounded next
      × (next.class ≡ r.class)
      × (next.finished ≡ r.finished)
unfolding observe_row record_finding
observe_row_keeps o now n r h = ground (
  arith,
  length-append r.seen (o.id ∷ []),
  length-append r.conflicts (record { class = no_class; finding = o.finding; at = now } ∷ []),
)

pub observe_row-finished :
    (o : Observation) (now : ℤ) (n : ℕ) (r : AttemptRow)
    → (observe_row o now n r).0.finished ≡ r.finished
unfolding observe_row record_finding
observe_row-finished o now n r = ground arith
