-- ===== src/Memory/Store/AttemptCalls.antt =====
-- libs/backend/go/memory/attempt_ledger.go over the store: the ledger of a transaction, and AttemptStore, of
-- which every call is a transaction of its own.
use dmpf.Prelude.{String, List, Option, Eq}
use dmpf.Prelude.Int.{ℤ}
use dmpf.Ports.Results.{Result, Error}
use dmpf.Ports.Context.{Context}
use dmpf.Ports.Attempts.{
  AttemptStart, AttemptOutcome, Finished, Observation, Observed, Attempt, AttemptCursor,
}
use dmpf.Memory.Attempts.Ledger.{Ledger, begin, finish, observe}
use dmpf.Memory.Attempts.Stale.{stale}
use dmpf.Memory.Store.{Store, Tx, within}

module _ {Ident S Ev : Type 0} where
  abbrev pub ledger_call :
      {A : Type 0} → (Ledger → Ledger × Result A) → Tx Ident S Ev → Tx Ident S Ev × Result A
  ledger_call call tx =
      let (attempts, r) = call tx.attempts in (record tx { attempts = attempts }, r)

  abbrev pub tx_begin :
      Context → String → String → ℤ → Tx Ident S Ev → Tx Ident S Ev × Result AttemptStart
  tx_begin ctx key message now = ledger_call (begin ctx key message now)

  abbrev pub tx_finish : Context → AttemptOutcome → Tx Ident S Ev → Tx Ident S Ev × Result Finished
  tx_finish ctx o = ledger_call (finish ctx o)

  abbrev pub tx_observe :
      Context → Observation → ℤ → Tx Ident S Ev → Tx Ident S Ev × Result Observed
  tx_observe ctx o now = ledger_call (observe ctx o now)

  -- The context is not read.
  abbrev pub tx_stale :
      ℤ → AttemptCursor → ℤ → Tx Ident S Ev → Tx Ident S Ev × Result (List Attempt)
  tx_stale cutoff after limit = ledger_call (λ l. (l, stale cutoff after limit l))

module _ {Ident S Ev : Type 0} ⦃e : Eq Ident⦄ (before queued : Option Error) where
  abbrev pub attempt_store_begin :
      Context → String → String → ℤ → Store Ident S Ev → Store Ident S Ev × Result AttemptStart
  attempt_store_begin ctx key message now = within before queued (tx_begin ctx key message now)

  abbrev pub attempt_store_finish :
      Context → AttemptOutcome → Store Ident S Ev → Store Ident S Ev × Result Finished
  attempt_store_finish ctx o = within before queued (tx_finish ctx o)

  abbrev pub attempt_store_observe :
      Context → Observation → ℤ → Store Ident S Ev → Store Ident S Ev × Result Observed
  attempt_store_observe ctx o now = within before queued (tx_observe ctx o now)

  abbrev pub attempt_store_stale :
      ℤ → AttemptCursor → ℤ → Store Ident S Ev → Store Ident S Ev × Result (List Attempt)
  attempt_store_stale cutoff after limit = within before queued (tx_stale cutoff after limit)
