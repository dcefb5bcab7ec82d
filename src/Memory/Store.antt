-- ===== src/Memory/Store.antt =====
-- libs/backend/go/memory/store.go, tx.go: the store, the working copy of a transaction, and the unit of
-- work. `txMu` is held for the whole callback, so transactions are steps that follow one another.
pub mod Saves
pub mod Tenancy
pub mod Atomicity
pub mod Receptions
pub mod AttemptCalls
pub mod Refinement
use dmpf.Prelude.{
  ℕ, suc, ◌+◌, ◌%◌, ◌≡◌, String, string_eq, Bool, true, false, List, [], ◌∷◌, ◌++◌, Option, none,
  some, Eq, ◌==◌, eqb, not, if◌then◌else◌, length,
}
use dmpf.Prelude.Int.{ℤ}
use dmpf.Prelude.Word.{full_range}
use dmpf.Prelude.Maps.{lookup, insert}
use dmpf.Ports.Results.{Result, ok, err, panic, Error, version_conflict}
use dmpf.Ports.Context.{Context}
use dmpf.Ports.Transaction.{OutboxEntry, Transaction}
use dmpf.Memory.Rows.{
  Row, RowKey, row_key_eq, Rows, Tables, Table, scoped_key, load_key, violation, version_at,
}
use dmpf.Memory.Attempts.Ledger.{Ledger}
use dmpf.Memory.Inbox.{InboxRows, InboxRow, InboxKey, inbox_key_eq}

module _ (Ident S Ev : Type 0) where
  pub record Tx : Type 0 where
    pub tables : Tables Ident S
    pub inbox : InboxRows
    pub outbox : List (OutboxEntry Ev)
    pub attempts : Ledger
    pub writes : ℕ

  pub record Store : Type 0 where
    pub tables : Tables Ident S
    pub inbox : InboxRows
    pub outbox : List (OutboxEntry Ev)
    pub attempts : Ledger
    pub within_calls : ℕ
    pub commits : ℕ
    pub fail_next_commit : Option Error

-- Tx.table: the rows of a table, which a first use creates.
unfoldable pub rows_of : {Ident S : Type 0} → String → Tables Ident S → Rows Ident S
rows_of name tables = elim (lookup name tables) [ none ↦ [] | some rows ↦ rows ]

module _ {Ident S Ev : Type 0} ⦃e : Eq Ident⦄ where
  abbrev pub new_store : Store Ident S Ev
  new_store = record {
    tables = [];
    inbox = [];
    outbox = [];
    attempts = [];
    within_calls = 0;
    commits = 0;
    fail_next_commit = none;
  }

  abbrev pub with_rows : Tx Ident S Ev → String → Rows Ident S → Tx Ident S Ev
  with_rows tx name rows = record tx { tables = insert name rows tx.tables }

  unfoldable pub save_as :
      Table Ident S → RowKey Ident → S → ℕ → Tx Ident S Ev → Tx Ident S Ev × Result (Unit {0})
  save_as t key state expected tx =
      let rows = rows_of t.name tx.tables in
      let opened = with_rows tx t.name rows in
      if not (eqb (version_at key rows) expected)
      then (opened, err version_conflict)
      else elim (violation t key state tx.writes rows) [
        | some broken ↦ (opened, err broken)
        | none ↦ (
          record opened {
            tables =
                insert t.name
                  (insert key (record { snapshot = state; version = (expected + 1) % full_range })
                    rows)
                  opened.tables;
            writes = tx.writes + 1;
          },
          ok tt,
        )
      ]

  -- txRepository.Load and Save.
  unfoldable pub load : Table Ident S → Context → Ident → Tx Ident S Ev → Result (S × ℕ)
  load t ctx id tx = elim (scoped_key ctx id) [
    | ok key ↦ load_key t key tx.tables
    | err x ↦ err x
    | panic ↦ panic
  ]

  unfoldable pub save :
      Table Ident S → Context → Ident → S → ℕ → Tx Ident S Ev → Tx Ident S Ev × Result (Unit {0})
  unfolding save_as
  save t ctx id state expected tx = elim (scoped_key ctx id) [
    | ok key ↦ save_as t key state expected tx
    | err x ↦ (tx, err x)
    | panic ↦ (tx, panic)
  ]

  -- storeReader.Load, outside any transaction.
  abbrev pub read : Table Ident S → Context → Ident → Store Ident S Ev → Result (S × ℕ)
  read t ctx id s = elim (scoped_key ctx id) [
    | ok key ↦ load_key t key s.tables
    | err x ↦ err x
    | panic ↦ panic
  ]

  unfoldable pub enqueue : OutboxEntry Ev → Tx Ident S Ev → Tx Ident S Ev × Result (Unit {0})
  enqueue entry tx = (record tx { outbox = tx.outbox ++ entry ∷ []; writes = tx.writes + 1 }, ok tt)

  abbrev pub fail_next : Error → Store Ident S Ev → Store Ident S Ev
  fail_next x s = record s { fail_next_commit = some x }

  unfoldable pub open_tx : Store Ident S Ev → Store Ident S Ev × Tx Ident S Ev
  open_tx s = (
    record s { within_calls = s.within_calls + 1 },
    record { tables = s.tables; inbox = s.inbox; outbox = []; attempts = s.attempts; writes = 0 },
  )

  unfoldable pub commit :
      {A : Type 0} → Tx Ident S Ev → A → Store Ident S Ev → Store Ident S Ev × Result A
  commit tx a s = elim s.fail_next_commit [
    | some x ↦ (record s { fail_next_commit = none }, err x)
    | none ↦ (
      record s {
        tables = tx.tables;
        inbox = tx.inbox;
        outbox = s.outbox ++ tx.outbox;
        attempts = tx.attempts;
        commits = s.commits + 1;
      },
      ok a,
    )
  ]

  unfoldable pub close :
      {A : Type 0} → Store Ident S Ev → Tx Ident S Ev × Result A → Store Ident S Ev × Result A
  unfolding commit
  close s (tx, ok a) = commit tx a s
  close s (tx, err x) = (s, err x)
  close s (tx, panic) = (s, panic)

  -- `Within`: `before` and `queued` are what `ctx.Err()` says before the wait for the mutex and after it.
  unfoldable pub within :
      {A : Type 0}
      → Option Error
      → Option Error
      → (Tx Ident S Ev → Tx Ident S Ev × Result A)
      → Store Ident S Ev
      → Store Ident S Ev × Result A
  unfolding open_tx close
  within before queued fn s = elim before [
    | some x ↦ (s, err x)
    | none ↦ elim queued [
      | some x ↦ (s, err x)
      | none ↦ let (opened, tx) = open_tx s in close opened (fn tx)
    ]
  ]

  -- The ports that a transaction of the store hands to its callback.
  abbrev pub ports_of : Table Ident S → Context → Transaction (Tx Ident S Ev) Ident S Ev
  ports_of t ctx = record { load = load t ctx; save = save t ctx; enqueue = enqueue }
