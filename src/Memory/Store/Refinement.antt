-- ===== src/Memory/Store/Refinement.antt =====
-- The rows of a table without unique constraints refine a map of versioned cells: any sequence of loads and
-- saves is answered as the map answers it.
use dmpf.Prelude.{
  ℕ, ◌+◌, ◌%◌, ◌≡◌, refl, string_eq, true, List, [], ◌∷◌, Option, none, some, Eq, ◌==◌, eqb,
  if◌then◌else◌, arith, Option-cases, inl, inr, Bool-cases, beq_refl,
}
use dmpf.Prelude.Word.{full_range}
use dmpf.Prelude.Maps.{lookup, lookup-nil}
use dmpf.Ports.Results.{Result, ok, err, panic, version_conflict}
use dmpf.Memory.Rows.{
  Row, RowKey, row_key_eq, Rows, Table, load_key, version_at, violation, violation_from,
}
use dmpf.Memory.Store.{Tx, rows_of, save_as}
use dmpf.Memory.Store.Saves.{stored, row_at-stored, save_as_differs, row_at-with_rows}

-- The map, and its two operations.
abbrev pub Cells : Type 0 → Type 0 → Type 0
Cells Ident S = RowKey Ident → Option (Row S)

module _ {S : Type 0} where
  abbrev pub cell_version : Option (Row S) → ℕ
  cell_version none = 0
  cell_version (some row) = row.version

  abbrev pub written_cell : S → ℕ → Row S
  written_cell state expected = record { snapshot = state; version = (expected + 1) % full_range }

  abbrev pub content_of : Option (Row S) → Option (S × ℕ)
  content_of none = none
  content_of (some row) = some (row.snapshot, row.version)

module _ {Ident S : Type 0} ⦃e : Eq Ident⦄ where
  abbrev pub put_cell : RowKey Ident → Row S → Cells Ident S → Cells Ident S
  put_cell key row cells k = if key == k then some row else cells k

  abbrev pub save_cell : RowKey Ident → S → ℕ → Cells Ident S → Cells Ident S × Result (Unit {0})
  save_cell key state expected cells =
      if eqb (cell_version (cells key)) expected
      then (put_cell key (written_cell state expected) cells, ok tt)
      else (cells, err version_conflict)

-- What a caller asks, and what it is answered.
pub data Call (Ident S : Type 0) : Type 0 where
  loads : RowKey Ident → Call Ident S
  saves : RowKey Ident → S → (expected : ℕ) → Call Ident S

pub data Answer (S : Type 0) : Type 0 where
  loaded : Option (S × ℕ) → Answer S
  saved : Result (Unit {0}) → Answer S

abbrev pub found : {S : Type 0} → Result (S × ℕ) → Option (S × ℕ)
found (ok r) = some r
found (err x) = none
found panic = none

module _ {Ident S : Type 0} ⦃e : Eq Ident⦄ where
  abbrev pub step_cells : Call Ident S → Cells Ident S → Cells Ident S × Answer S
  step_cells (loads key) cells = (cells, loaded (content_of (cells key)))
  step_cells (saves key state expected) cells =
      let (next, r) = save_cell key state expected cells in (next, saved r)

  pub run_cells : List (Call Ident S) → Cells Ident S → List (Answer S)
  run_cells [] cells = []
  run_cells (c ∷ calls) cells =
      let (next, answer) = step_cells c cells in answer ∷ run_cells calls next

module _ {Ident S : Type 0} ⦃e : Eq Ident⦄ where
  violation_free :
      (t : Table Ident S) (key : RowKey Ident) (state : S) (writes : ℕ) (rows : Rows Ident S)
      → t.unique ≡ []
      → violation t key state writes rows ≡ none
  unfolding violation violation_from
  violation_free t key state writes rows free = rw free refl

module _ {Ident S Ev : Type 0} ⦃e : Eq Ident⦄ (t : Table Ident S) where
  abbrev pub step_tx : Call Ident S → Tx Ident S Ev → Tx Ident S Ev × Answer S
  step_tx (loads key) tx = (tx, loaded (found (load_key t key tx.tables)))
  step_tx (saves key state expected) tx =
      let (next, r) = save_as t key state expected tx in (next, saved r)

  pub run_tx : List (Call Ident S) → Tx Ident S Ev → List (Answer S)
  run_tx [] tx = []
  run_tx (c ∷ calls) tx = let (next, answer) = step_tx c tx in answer ∷ run_tx calls next

  -- The map that a transaction shows of the table.
  abbrev pub cells_of : Tx Ident S Ev → Cells Ident S
  cells_of tx key = lookup key (rows_of t.name tx.tables)

  abbrev Shows : Tx Ident S Ev → Cells Ident S → Type 0
  Shows tx cells = (key : RowKey Ident) → cells_of tx key ≡ cells key

  load-cells :
      (key : RowKey Ident) (tx : Tx Ident S Ev)
      → found (load_key t key tx.tables) ≡ content_of (cells_of tx key)
  unfolding load_key rows_of
  load-cells key tx = elim (Option-cases (lookup t.name tx.tables)) [
    | inl absent ↦ ground (arith, absent, lookup-nil {V = Row S} key)
    | inr (rows, there) ↦ elim (Option-cases (lookup key rows)) [
      | inl gone ↦ ground (arith, there, gone)
      | inr (row, stored) ↦ ground (arith, there, stored)
    ]
  ]

  save_as_current :
      (key : RowKey Ident) (state : S) (expected : ℕ) (tx : Tx Ident S Ev)
      → t.unique ≡ []
      → eqb (version_at key (rows_of t.name tx.tables)) expected ≡ true
      → save_as t key state expected tx ≡ (stored t key state expected tx, ok tt)
  unfolding save_as
  save_as_current key state expected tx free current =
      ground (arith, current, violation_free t key state tx.writes (rows_of t.name tx.tables) free)

  -- What a save leaves of a map that the transaction shows, where no constraint is declared.
  save-cells :
      (key : RowKey Ident) (state : S) (expected : ℕ) (tx : Tx Ident S Ev) (cells : Cells Ident S)
      → t.unique ≡ []
      → Shows tx cells
      → let after = save_as t key state expected tx in
        let spec = save_cell key state expected cells in Shows after.0 spec.0 × (after.1 ≡ spec.1)
  save-cells key state expected tx cells free shows =
      elim (Bool-cases (eqb (version_at key (rows_of t.name tx.tables)) expected)) [
        | inl current ↦ rw (save_as_current key state expected tx free current) (
          (λ other. ground (
            arith,
            row_at-stored t key state expected tx t.name other,
            beq_refl t.name,
            shows key,
            shows other,
            current,
          )),
          ground (arith, shows key, current),
        )
        | inr stale ↦
            rw
              (save_as_differs t key state expected tx
                (λ same. absurd (ground (arith, stale, same))))
              (
                (λ other. ground (
                  arith,
                  row_at-with_rows t.name tx t.name other,
                  shows key,
                  shows other,
                  stale,
                )),
                ground (arith, shows key, stale),
              )
      ]

  -- Over a table that declares no unique constraint, the store is a map of versioned cells: any sequence
  -- of loads and saves by key gets the answers that compare-and-set on the map gives, starting from the
  -- map that the transaction shows, in every load's content and every save's success or conflict.
  pub run_tx-run_cells :
      (calls : List (Call Ident S)) (tx : Tx Ident S Ev)
      → t.unique ≡ []
      → run_tx calls tx ≡ run_cells calls (cells_of tx)
  unfolding run_tx run_cells
  run_tx-run_cells calls tx free = from calls tx (cells_of tx) (λ key. refl)
    where
      from :
          (calls : List (Call Ident S)) (tx : Tx Ident S Ev) (cells : Cells Ident S)
          → Shows tx cells
          → run_tx calls tx ≡ run_cells calls cells
      from [] tx cells shows = refl
      from (loads key ∷ calls) tx cells shows =
          let rest = from calls tx cells shows in ground (arith, rest, load-cells key tx, shows key)
      from (saves key state expected ∷ calls) tx cells shows =
          let (next, same) = save-cells key state expected tx cells free shows in
          let rest =
            from calls ((save_as t key state expected tx).0)
              ((save_cell key state expected cells).0) next in
          ground (arith, rest, same)
