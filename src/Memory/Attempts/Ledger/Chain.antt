-- ===== src/Memory/Attempts/Ledger/Chain.antt =====
-- What `Begin`, `Finish` and `Observe` keep of the rows of one key.
use dmpf.Prelude.{
  ℕ, zero, suc, ◌-◌, ◌≡◌, inl, inr, String, true, false, List, [], ◌∷◌, ◌++◌, none, some, arith,
  length, ap, sym, ◌∙◌, subst, Option-cases, Bool-cases, get_elem?, set, string_eq,
}
use dmpf.Prelude.Int.{ℤ, pos_part}
use dmpf.Ports.Attempts.{AttemptOutcome, Observation}
use dmpf.Memory.Rows.{row_key_eq}
use dmpf.Memory.Attempts.Row.{AttemptRow, new_row, finish_row, observe_row}
use dmpf.Memory.Attempts.Row.Records.{
  IsBounded, finish_row-IsBounded, observe_row_keeps, observe_row-finished, finish_row_closes,
}
use dmpf.Memory.Attempts.Ledger.{AttemptKey, last_row, opens, begin_in, finish_in, observe_in}
use dmpf.Memory.Attempts.Ledger.Starts.{begin_in_cases}

-- An attempt that is open has seen nothing yet.
abbrev pub IsSound : AttemptRow → Type 0
IsSound r = IsBounded r × (r.finished ≡ false → (r.seen ≡ []) × (r.conflicts ≡ []))

-- Every attempt but the last is finished, and all of them are sound.
abbrev pub IsChain : List AttemptRow → Type 0
IsChain [] = Unit
IsChain (r ∷ []) = IsSound r
IsChain (r ∷ s ∷ rows) = (r.finished ≡ true) × IsSound r × IsChain (s ∷ rows)

append-IsChain :
    (r : AttemptRow) (rows : List AttemptRow)
    → IsSound r
    → opens rows ≡ none
    → IsChain rows
    → IsChain (rows ++ r ∷ [])
append-IsChain r [] new closed h = new
append-IsChain r (s ∷ []) new closed h = (ground arith, h, new)
append-IsChain r (s ∷ t ∷ rows) new closed (f, b, h) =
    (f, b, append-IsChain r (t ∷ rows) new closed h)

pub begin_in-IsChain :
    (scope : AttemptKey) (message : String) (now : ℤ) (rows : List AttemptRow)
    → IsChain rows
    → IsChain (begin_in scope message now rows).0
begin_in-IsChain scope message now rows h = elim (begin_in_cases scope message now rows) [
  | inl (a, c, found, same) ↦ rw same h
  | inr (inl (a, there, same)) ↦ rw same h
  | inr (inr (clear, closed, same)) ↦
      rw same (append-IsChain (new_row message now) rows (ground arith) closed h)
]

-- A row that stays finished and sound may replace the one at its place.
set-IsChain :
    (rows : List AttemptRow) (i : ℕ) (r next : AttemptRow)
    → get_elem? rows i ≡ some r
    → (r.finished ≡ true → next.finished ≡ true)
    → (IsSound r → IsSound next)
    → IsChain rows
    → IsChain (set rows i next)
set-IsChain [] i r next at stays sound h = h
set-IsChain (s ∷ []) zero r next at stays sound h =
    let same : s ≡ r = ground arith in sound (subst IsSound same h)
set-IsChain (s ∷ []) (suc i) r next at stays sound h = h
set-IsChain (s ∷ t ∷ rows) zero r next at stays sound (f, b, h) =
    let same : s ≡ r = ground arith in
    (stays (ap (λ x. x.finished) (sym same) ∙ f), sound (subst IsSound same b), h)
set-IsChain (s ∷ t ∷ rows) (suc zero) r next at stays sound (f, b, h) =
    (f, b, set-IsChain (t ∷ rows) zero r next at stays sound h)
set-IsChain (s ∷ t ∷ rows) (suc (suc i)) r next at stays sound (f, b, h) =
    (f, b, set-IsChain (t ∷ rows) (suc i) r next at stays sound h)

finish_row-IsSound : (o : AttemptOutcome) (r : AttemptRow) → IsSound r → IsSound (finish_row o r).0
finish_row-IsSound o r (b, new) = elim (Bool-cases r.finished) [
  | inr unfinished ↦
      let (seen, conflicts) = new unfinished in
      (
        finish_row-IsBounded o r (λ p. ground arith) b,
        (λ p. absurd (ground (arith, finish_row_closes o r))),
      )
  | inl finished ↦ (
    finish_row-IsBounded o r (λ p. absurd (ground arith)) b,
    (λ p. absurd (ground (arith, finish_row_closes o r))),
  )
]

pub finish_in-IsChain :
    (o : AttemptOutcome) (rows : List AttemptRow) → IsChain rows → IsChain (finish_in o rows).0
unfolding finish_in
finish_in-IsChain o rows h = elim (Option-cases (get_elem? rows (pos_part o.n - 1))) [
  | inl unknown ↦ rw (unknown, finish_in) h
  | inr (r, at) ↦
      rw (at, finish_in)
        (set-IsChain rows (pos_part o.n - 1) r (finish_row o r).0 at (λ p. finish_row_closes o r)
          (finish_row-IsSound o r) h)
]

pub get_elem?-last_row :
    (rows : List AttemptRow) (r : AttemptRow)
    → last_row rows ≡ some r
    → get_elem? rows (length rows - 1) ≡ some r
get_elem?-last_row [] r h = absurd (ground arith)
get_elem?-last_row (s ∷ []) r h = h
get_elem?-last_row (s ∷ t ∷ rows) r h = ground (arith, get_elem?-last_row (t ∷ rows) r h)

pub observe_in_last :
    (o : Observation) (now : ℤ) (rows : List AttemptRow) (r : AttemptRow)
    → last_row rows ≡ some r
    → r.finished ≡ true
    → (observe_in o now rows).0 ≡ set rows (length rows - 1) (observe_row o now (length rows) r).0
unfolding observe_in
observe_in_last o now rows r there finished = ground arith

pub observe_in-IsChain :
    (o : Observation) (now : ℤ) (rows : List AttemptRow)
    → IsChain rows
    → IsChain (observe_in o now rows).0
unfolding observe_in
observe_in-IsChain o now rows h = elim (Option-cases (last_row rows)) [
  | inl unknown ↦ rw (unknown, observe_in) h
  | inr (r, there) ↦ elim (Bool-cases r.finished) [
    | inr unfinished ↦ rw (there, unfinished, observe_in) h
    | inl finished ↦ rw (observe_in_last o now rows r there finished) (
        set-IsChain rows (length rows - 1) r (observe_row o now (length rows) r).0
          (get_elem?-last_row rows r there) (λ p. observe_row-finished o now (length rows) r ∙ p)
          (λ (b, new). (
            (observe_row_keeps o now (length rows) r b).1,
            (λ p. absurd (ground (arith, observe_row-finished o now (length rows) r))),
          ))
          h)
  ]
]
