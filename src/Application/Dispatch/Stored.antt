-- ===== src/Application/Dispatch/Stored.antt =====
-- dispatch.go over the in-memory store, with a partner that keeps what it was sent.
use dmpf.Prelude.{String, List, [], ◌∷◌, ◌++◌, none, Eq}
use dmpf.Ports.Results.{Result}
use dmpf.Ports.Context.{Context}
use dmpf.Memory.Inbox.{TxInbox, Pending}
use dmpf.Memory.Store.{Store, Tx, within}
use dmpf.Memory.Store.Receptions.{inbox_of}
use dmpf.Memory.Store.AttemptCalls.{attempt_store_begin, attempt_store_finish, tx_finish}
use dmpf.Application.Dispatch.{ExternalPorts, ExternalStep, Submission}

-- The store, and the keys that the partner was sent, in turn.
pub record World (Ident S Ev : Type 0) : Type 0 where
  pub store : Store Ident S Ev
  pub sent : List String

module _ {Ident S Ev : Type 0} where
  abbrev pub in_store :
      {A : Type 0} → World Ident S Ev → Store Ident S Ev × Result A → World Ident S Ev × Result A
  in_store w (s, r) = (record w { store = s }, r)

module _ {Ident S Ev : Type 0} ⦃e : Eq Ident⦄ where
  -- The partner answers by what it was sent before.
  abbrev pub ports_over :
      Context
      → TxInbox
      → (List String → Submission)
      → (ExternalStep → Tx Ident S Ev → Tx Ident S Ev × Result (Unit {0}))
      → ExternalPorts (World Ident S Ev) (Tx Ident S Ev) Pending
  ports_over ctx i partner apply = record {
    store_begin =
        λ key message now w. in_store w (attempt_store_begin none none ctx key message now w.store);
    store_finish = λ o w. in_store w (attempt_store_finish none none ctx o w.store);
    submit = λ key w. (record w { sent = w.sent ++ key ∷ [] }, partner w.sent);
    within = λ fn w. in_store w (within none none fn w.store);
    ledger_finish = tx_finish ctx;
    inbox = inbox_of i ctx;
    apply = apply;
  }
