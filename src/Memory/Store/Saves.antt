-- ===== src/Memory/Store/Saves.antt =====
-- Save against load: optimistic concurrency, isolation of tenants, and what a refused save leaves.
use dmpf.Prelude.{
  ℕ, ◌+◌, ◌%◌, ◌<◌, ◌≡◌, refl, ◌≢◌, ◌∙◌, String, string_eq, nat_eq, ◌&&◌, Option, none, some, Eq,
  ◌==◌, eqb, arith, if◌then◌else◌, Option-cases, Bool-cases, ◌⊎◌, inl, inr, beq_refl, All,
}
use text.Mathlib.TextEquality.{eq_iff}
use dmpf.Prelude.Word.{full_range}
use dmpf.Prelude.Maps.{lookup, insert, lookup-insert, lookup-nil}
use dmpf.Ports.Results.{Result, ok, err, panic, Error, version_conflict, not_found}
use dmpf.Memory.Rows.{
  Row, RowKey, row_key_eq, same_key, same_key_iff, Rows, Tables, Table, load_key, miss, violation,
  version_at,
}
use dmpf.Memory.Rows.Uniqueness.{IsApart, violation-IsApart, apart-violation, null-IsApart}
use dmpf.Memory.Store.{Tx, rows_of, with_rows, save_as}

module _ {Ident S : Type 0} ⦃e : Eq Ident⦄ where
  abbrev pub row_at : String → RowKey Ident → Tables Ident S → Option (Row S)
  row_at name key tables = lookup key (rows_of name tables)

  pub rows_of-insert :
      (name other : String) (rows : Rows Ident S) (tables : Tables Ident S)
      → rows_of other (insert name rows tables)
        ≡ (if name == other then rows else rows_of other tables)
  unfolding rows_of
  rows_of-insert name other rows tables = ground (arith, lookup-insert name other rows tables)

  -- A load finds exactly the row that is there.
  pub load_key-row_at :
      (t : Table Ident S) (key : RowKey Ident) (tables : Tables Ident S) (row : Row S)
      → row_at t.name key tables ≡ some row
      → load_key t key tables ≡ ok (row.snapshot, row.version)
  unfolding load_key rows_of
  load_key-row_at t key tables row h = ground (arith, lookup-nil {V = Row S} key)

  pub load_key-absent :
      (t : Table Ident S) (key : RowKey Ident) (tables : Tables Ident S)
      → row_at t.name key tables ≡ none
      → (x : Error) × (load_key t key tables ≡ err x)
  unfolding load_key rows_of
  load_key-absent t key tables h = elim (Option-cases (lookup t.name tables)) [
    | inl gone ↦ (not_found, ground arith)
    | inr (rows, there) ↦ (miss t key rows, ground arith)
  ]

ok-cases : (r : Result (Unit {0})) → (r ≡ ok tt) ⊎ (r ≢ ok tt)
ok-cases (ok u) = inl refl
ok-cases (err x) = inr (λ h. cc)
ok-cases panic = inr (λ h. cc)

module _ {Ident S Ev : Type 0} ⦃e : Eq Ident⦄ where
  -- Every outcome of a save.
  abbrev pub stored : Table Ident S → RowKey Ident → S → ℕ → Tx Ident S Ev → Tx Ident S Ev
  stored t key state expected tx =
      let rows = rows_of t.name tx.tables in
      record tx {
        tables =
            insert t.name
              (insert key (record { snapshot = state; version = (expected + 1) % full_range }) rows)
              (insert t.name rows tx.tables);
        writes = tx.writes + 1;
      }

  save_as_ok :
      (t : Table Ident S) (key : RowKey Ident) (state : S) (expected : ℕ) (tx : Tx Ident S Ev)
      → (save_as t key state expected tx).1 ≡ ok tt
      → ((save_as t key state expected tx).0 ≡ stored t key state expected tx)
        × (version_at key (rows_of t.name tx.tables) ≡ expected)
        × (violation t key state tx.writes (rows_of t.name tx.tables) ≡ none)
  unfolding save_as
  save_as_ok t key state expected tx h = ground arith

  pub row_at-stored :
      (t : Table Ident S) (key : RowKey Ident) (state : S) (expected : ℕ) (tx : Tx Ident S Ev)
      (name : String) (other : RowKey Ident)
      → row_at name other (stored t key state expected tx).tables ≡ (
          if t.name == name && same_key key other
          then some (record { snapshot = state; version = (expected + 1) % full_range })
          else row_at name other tx.tables)
  row_at-stored t key state expected tx name other =
      let rows = rows_of t.name tx.tables in
      let row : Row S = record { snapshot = state; version = (expected + 1) % full_range } in
      ground (
        arith,
        eq_iff t.name name,
        rows_of-insert t.name name (insert key row rows) (insert t.name rows tx.tables),
        rows_of-insert t.name name rows tx.tables,
        lookup-insert key other row rows,
      )

  save_as_err :
      (t : Table Ident S) (key : RowKey Ident) (state : S) (expected : ℕ) (tx : Tx Ident S Ev)
      → (save_as t key state expected tx).1 ≢ ok tt
      → (save_as t key state expected tx).0 ≡ with_rows tx t.name (rows_of t.name tx.tables)
  unfolding save_as
  save_as_err t key state expected tx h =
      elim (Bool-cases (eqb (version_at key (rows_of t.name tx.tables)) expected)) [
        | inr differs ↦ ground arith
        | inl same ↦
            elim (Option-cases (violation t key state tx.writes (rows_of t.name tx.tables))) [
              | inr (broken, found) ↦ ground arith
              | inl clean ↦ absurd (h (ground arith))
            ]
      ]

  -- A save that succeeds was made at the version stored, so no write in between was lost; a load then
  -- gives the state under the version that follows (a uint64), every other row of every table is as it
  -- was, and so are the inbox and the outbox.
  pub save_as-load_key :
      (t : Table Ident S) (key : RowKey Ident) (state : S) (expected : ℕ) (tx : Tx Ident S Ev)
      → (save_as t key state expected tx).1 ≡ ok tt
      → let q = (save_as t key state expected tx).0 in
        (version_at key (rows_of t.name tx.tables) ≡ expected)
        × (load_key t key q.tables ≡ ok (state, (expected + 1) % full_range))
        × ((name : String) (other : RowKey Ident)
            → (t.name ≢ name) ⊎ (key ≢ other)
            → row_at name other q.tables ≡ row_at name other tx.tables)
        × (q.inbox ≡ tx.inbox)
        × (q.outbox ≡ tx.outbox)
  save_as-load_key t key state expected tx h =
      let (after, before, clean) = save_as_ok t key state expected tx h in
      rw after (
        before,
        load_key-row_at t key (stored t key state expected tx).tables
            (record { snapshot = state; version = (expected + 1) % full_range })
            (ground (
              arith,
              row_at-stored t key state expected tx t.name key,
              beq_refl t.name,
              (same_key_iff key key).1 refl,
            )),
        (λ name other apart. ground (
          arith,
          row_at-stored t key state expected tx name other,
          eq_iff t.name name,
          same_key_iff key other,
        )),
        refl,
        refl,
      )

  pub save_as_differs :
      (t : Table Ident S) (key : RowKey Ident) (state : S) (expected : ℕ) (tx : Tx Ident S Ev)
      → version_at key (rows_of t.name tx.tables) ≢ expected
      → save_as t key state expected tx
        ≡ (with_rows tx t.name (rows_of t.name tx.tables), err version_conflict)
  unfolding save_as
  save_as_differs t key state expected tx h = ground arith

  pub row_at-with_rows :
      (table : String) (tx : Tx Ident S Ev) (name : String) (other : RowKey Ident)
      → row_at name other (with_rows tx table (rows_of table tx.tables)).tables
        ≡ row_at name other tx.tables
  row_at-with_rows table tx name other =
      ground
        (arith, eq_iff table name, rows_of-insert table name (rows_of table tx.tables) tx.tables)

  pub version_after :
      (t : Table Ident S) (key : RowKey Ident) (state : S) (expected : ℕ) (tx : Tx Ident S Ev)
      → (save_as t key state expected tx).1 ≡ ok tt
      → row_at t.name key (save_as t key state expected tx).0.tables
        ≡ some (record { snapshot = state; version = (expected + 1) % full_range })
  version_after t key state expected tx h = rw (save_as_ok t key state expected tx h).0 (
      ground (
        arith,
        row_at-stored t key state expected tx t.name key,
        beq_refl t.name,
        (same_key_iff key key).1 refl,
      ))

  -- Two writers that loaded the same version cannot both save: once one has, the other is refused with
  -- a version conflict, whatever it would have written, and its row stays as the first one left it.
  pub save_as_conflict :
      (t : Table Ident S) (key : RowKey Ident) (ours theirs : S) (expected : ℕ) (tx : Tx Ident S Ev)
      → expected < full_range
      → (save_as t key ours expected tx).1 ≡ ok tt
      → let q = (save_as t key ours expected tx).0 in
        ((save_as t key theirs expected q).1 ≡ err version_conflict)
        × (load_key t key (save_as t key theirs expected q).0.tables
            ≡ ok (ours, (expected + 1) % full_range))
  save_as_conflict t key ours theirs expected tx fits h =
      let q = (save_as t key ours expected tx).0 in
      let there = version_after t key ours expected tx h in
      let refused = save_as_differs t key theirs expected q (ground (arith, there)) in
      rw refused (
        refl,
        load_key-row_at t key _ (record { snapshot = ours; version = (expected + 1) % full_range })
            (row_at-with_rows t.name q t.name key ∙ there),
      )

  -- A refused save writes nothing: every row of every table, the inbox, the outbox and the count of
  -- writes are as they were.
  pub save_as_refused :
      (t : Table Ident S) (key : RowKey Ident) (state : S) (expected : ℕ) (tx : Tx Ident S Ev)
      → (save_as t key state expected tx).1 ≢ ok tt
      → let q = (save_as t key state expected tx).0 in
        ((name : String) (other : RowKey Ident)
          → row_at name other q.tables ≡ row_at name other tx.tables)
        × (q.inbox ≡ tx.inbox)
        × (q.outbox ≡ tx.outbox)
        × (q.writes ≡ tx.writes)
  save_as_refused t key state expected tx h =
      rw (save_as_err t key state expected tx h)
        ((λ name other. row_at-with_rows t.name tx name other), refl, refl, refl)

  pub row_at-save_as :
      (t : Table Ident S) (key : RowKey Ident) (state : S) (expected : ℕ) (tx : Tx Ident S Ev)
      (name : String) (other : RowKey Ident)
      → key ≢ other
      → row_at name other (save_as t key state expected tx).0.tables ≡ row_at name other tx.tables
  row_at-save_as t key state expected tx name other apart =
      elim (ok-cases (save_as t key state expected tx).1) [
        | inl h ↦ (save_as-load_key t key state expected tx h).2 name other (inr apart)
        | inr h ↦ (save_as_refused t key state expected tx h).0 name other
      ]

  -- A save that succeeds collides with no other row of its tenant in its table under any constraint that
  -- the table declares. A save at the version stored succeeds where, under each of them, the state has a NULL
  -- among the columns or collides with no other row of its tenant: a NULL refuses no save.
  pub save_as-IsApart :
      (t : Table Ident S) (key : RowKey Ident) (state : S) (expected : ℕ) (tx : Tx Ident S Ev)
      → let rows = rows_of t.name tx.tables in
        let accepted : Type 0 = (save_as t key state expected tx).1 ≡ ok tt in
        (accepted → All (λ u. All (IsApart u key state) rows) t.unique)
        × (version_at key rows ≡ expected
            → All (λ u. (u.key state ≡ none) ⊎ All (IsApart u key state) rows) t.unique
            → accepted)
  unfolding save_as
  save_as-IsApart t key state expected tx = (
    (λ h.
        let (after, before, clean) = save_as_ok t key state expected tx h in
        violation-IsApart t key state tx.writes (rows_of t.name tx.tables) clean),
    (λ current apart. ground (
      arith,
      current,
      apart-violation t key state tx.writes (rows_of t.name tx.tables)
          (null-IsApart key state (rows_of t.name tx.tables) t.unique apart),
    )),
  )
