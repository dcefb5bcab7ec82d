-- ===== src/Memory/Attempts/Ledger/Settled.antt =====
-- A message that an attempt ended for good stays answered, whatever calls follow.
use dmpf.Prelude.{
  ℕ, zero, suc, ◌+◌, ◌-◌, ◌≡◌, refl, sym, ap, subst, ◌∙◌, inl, inr, String, true, false, List, [],
  ◌∷◌, ◌++◌, some, arith, any, length, get_elem?, set, Bool-cases, Option-cases,
}
use dmpf.Prelude.Int.{ℤ, pos_part}
use dmpf.Ports.Results.{ok}
use dmpf.Ports.Context.{Context}
use dmpf.Ports.Attempts.{
  ExternalClass, Attempt, AttemptOutcome, Observation, AttemptStart, done, is_retryable,
}
use dmpf.Memory.Rows.{scoped_key}
use dmpf.Memory.Attempts.Row.{AttemptRow, new_row, finish_row, observe_row, record_finding}
use dmpf.Memory.Attempts.Ledger.{
  AttemptKey, Ledger, rows_of, attempt_of, is_done, last_done, last_row, begin_in, finish_in,
  observe_in, begin, store_started,
}
use dmpf.Memory.Attempts.Ledger.Calls.{Move, run, IsKept, run-Inv}
use dmpf.Memory.Attempts.Ledger.Chain.{get_elem?-last_row, observe_in_last}
use dmpf.Memory.Attempts.Ledger.Starts.{begin_in_cases}
use dmpf.Memory.Attempts.Ledger.Answers.{Closed, begin_scoped}

module _ (message : String) where
  -- The message has an attempt that ended for good.
  abbrev pub IsSettled : List AttemptRow → Type 0
  IsSettled rows = any (is_done message) rows ≡ true

  finish_row-is_done :
      (o : AttemptOutcome) (r : AttemptRow)
      → is_done message r ≡ true
      → is_done message (finish_row o r).0 ≡ true
  unfolding finish_row
  finish_row-is_done o r h = ground (arith, h)

  observe_row-is_done :
      (o : Observation) (now : ℤ) (n : ℕ) (r : AttemptRow)
      → is_done message r ≡ true
      → is_done message (observe_row o now n r).0 ≡ true
  unfolding observe_row record_finding
  observe_row-is_done o now n r h = ground (arith, h)

  append-IsSettled :
      (rows : List AttemptRow) (r : AttemptRow) → IsSettled rows → IsSettled (rows ++ r ∷ [])
  append-IsSettled [] r h = absurd (ground (arith, h))
  append-IsSettled (s ∷ rows) r h = elim (Bool-cases (is_done message s)) [
    | inl ended ↦ ground (arith, ended)
    | inr other ↦ ground (arith, h, other, append-IsSettled rows r (ground (arith, h, other)))
  ]

  set-IsSettled :
      (rows : List AttemptRow) (i : ℕ) (r next : AttemptRow)
      → get_elem? rows i ≡ some r
      → (is_done message r ≡ true → is_done message next ≡ true)
      → IsSettled rows
      → IsSettled (set rows i next)
  set-IsSettled [] i r next at stays h = h
  set-IsSettled (s ∷ rows) zero r next at stays h =
      let same : s ≡ r = ground (arith, at) in
      elim (Bool-cases (is_done message s)) [
        | inl ended ↦ ground (arith, stays (ap (is_done message) (sym same) ∙ ended))
        | inr other ↦ ground (arith, h, other)
      ]
  set-IsSettled (s ∷ rows) (suc i) r next at stays h = elim (Bool-cases (is_done message s)) [
    | inl ended ↦ ground (arith, ended)
    | inr other ↦
        ground (arith, other, set-IsSettled rows i r next at stays (ground (arith, h, other)))
  ]

  begin_in-IsSettled :
      (scope : AttemptKey) (other : String) (now : ℤ) (rows : List AttemptRow)
      → IsSettled rows
      → IsSettled (begin_in scope other now rows).0
  begin_in-IsSettled scope other now rows h = elim (begin_in_cases scope other now rows) [
    | inl (a, c, found, same) ↦ rw same h
    | inr (inl (a, there, same)) ↦ rw same h
    | inr (inr (clear, closed, same)) ↦ rw same (append-IsSettled rows (new_row other now) h)
  ]

  finish_in-IsSettled :
      (o : AttemptOutcome) (rows : List AttemptRow)
      → IsSettled rows
      → IsSettled (finish_in o rows).0
  unfolding finish_in
  finish_in-IsSettled o rows h = elim (Option-cases (get_elem? rows (pos_part o.n - 1))) [
    | inl unknown ↦ rw (unknown, finish_in) h
    | inr (r, at) ↦
        rw (at, finish_in)
          (set-IsSettled rows (pos_part o.n - 1) r (finish_row o r).0 at (finish_row-is_done o r) h)
  ]

  observe_in-IsSettled :
      (o : Observation) (now : ℤ) (rows : List AttemptRow)
      → IsSettled rows
      → IsSettled (observe_in o now rows).0
  unfolding observe_in
  observe_in-IsSettled o now rows h = elim (Option-cases (last_row rows)) [
    | inl unknown ↦ rw (unknown, observe_in) h
    | inr (r, there) ↦ elim (Bool-cases r.finished) [
      | inr unfinished ↦ rw (there, unfinished, observe_in) h
      | inl finished ↦ rw (observe_in_last o now rows r there finished) (
          set-IsSettled rows (length rows - 1) r (observe_row o now (length rows) r).0
            (get_elem?-last_row rows r there) (observe_row-is_done o now (length rows) r) h)
    ]
  ]

  last_done_found :
      (n : ℕ) (rows : List AttemptRow) (k : ℕ) (r : AttemptRow)
      → last_done message n rows ≡ some (k, r)
      → IsSettled rows
  unfolding last_done
  last_done_found n [] k r h = absurd (ground (arith, h))
  last_done_found n (s ∷ rows) k r h = elim (Option-cases (last_done message (n + 1) rows)) [
    | inr ((j, q), found) ↦ ground (arith, last_done_found (n + 1) rows j q found)
    | inl clear ↦ elim (Bool-cases (is_done message s)) [
      | inl ended ↦ ground (arith, ended)
      | inr other ↦ absurd (ground (arith, h, clear, other))
    ]
  ]

  last_done-IsSettled :
      (n : ℕ) (rows : List AttemptRow)
      → IsSettled rows
      → (k : ℕ) × (r : AttemptRow) × (last_done message n rows ≡ some (k, r))
        × (is_done message r ≡ true)
  unfolding last_done
  last_done-IsSettled n [] h = absurd (ground (arith, h))
  last_done-IsSettled n (s ∷ rows) h = elim (Option-cases (last_done message (n + 1) rows)) [
    | inr ((k, r), found) ↦
        let (j, q, there, ended) =
          last_done-IsSettled (n + 1) rows (last_done_found (n + 1) rows k r found) in
        (j, q, ground (arith, there), ended)
    | inl clear ↦ elim (Bool-cases (is_done message s)) [
      | inl ended ↦ (n, s, ground (arith, clear, ended), ended)
      | inr other ↦
          let (k, r, found, _) = last_done-IsSettled (n + 1) rows (ground (arith, h, other)) in
          absurd (ground (arith, clear, found))
    ]
  ]

  -- At the key, the message stays settled.
  abbrev StaysAt : AttemptKey → AttemptKey → List AttemptRow → Type 0
  StaysAt at scope rows = scope ≡ at → IsSettled rows

  settled-IsKept : (at : AttemptKey) → IsKept (StaysAt at)
  settled-IsKept at = record {
    begun = λ scope other now rows h same. begin_in-IsSettled scope other now rows (h same);
    finished = λ scope o rows h same. finish_in-IsSettled o rows (h same);
    observed = λ scope o now rows h same. observe_in-IsSettled o now rows (h same);
  }

any-append :
    (message : String) (rows : List AttemptRow) (r : AttemptRow)
    → is_done message r ≡ true
    → IsSettled message (rows ++ r ∷ [])
any-append message [] r h = ground (arith, h)
any-append message (s ∷ rows) r h = ground (arith, any-append message rows r h)

begin_in_settled :
    (scope : AttemptKey) (message : String) (later : ℤ) (rows : List AttemptRow)
    → IsSettled message rows
    → (a : Attempt) × (c : ExternalClass) × (is_retryable c ≡ false)
      × (begin_in scope message later rows ≡ (rows, done a c))
unfolding begin_in
begin_in_settled scope message later rows h =
    let (k, r, found, ended) = last_done-IsSettled message 1 rows h in
    (attempt_of scope k r, r.class, ground (arith, ended), rw (found, begin_in) refl)

-- An attempt that was closed for good answers every later Begin of its message in its tenant, whatever calls of
-- any contexts came in between: done, and nothing is written.
pub begin_settled :
    (ctx there : Context) (key message : String) (later : ℤ) (closed : Ledger) (ms : List Move)
    → Closed ctx key message closed
    → scoped_key there key ≡ scoped_key ctx key
    → (a : Attempt) × (c : ExternalClass) × (is_retryable c ≡ false)
      × (begin there key message later (run closed ms) ≡ (run closed ms, ok (done a c)))
begin_settled ctx there key message later closed ms b same_scope =
    let at_first : (scope : AttemptKey) → StaysAt message b.scope scope (rows_of scope closed) =
      λ scope same.
        subst (λ k. IsSettled message (rows_of k closed)) (sym same)
          (subst (IsSettled message) (sym b.rows) (any-append message b.earlier b.last b.ended)) in
    let settled =
      run-Inv (StaysAt message b.scope) (settled-IsKept message b.scope) closed ms at_first b.scope
        refl in
    let (a, c, final, answer) =
      begin_in_settled b.scope message later (rows_of b.scope (run closed ms)) settled in
    (
      a,
      c,
      final,
      begin_scoped there key message later (run closed ms) b.scope b.named (same_scope ∙ b.scoped)
          ∙ ap
              (λ (x : List AttemptRow × AttemptStart).
                (store_started b.scope x.0 x.1 (run closed ms), ok x.1))
              answer,
    )
