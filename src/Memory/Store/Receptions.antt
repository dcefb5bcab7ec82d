-- ===== src/Memory/Store/Receptions.antt =====
-- libs/backend/go/memory/inbox.go over a transaction of the store: the port that the use case registers with.
use dmpf.Ports.Results.{Result, ok, err, panic}
use dmpf.Ports.Context.{Context}
use dmpf.Ports.Inbox.{Inbox}
use dmpf.Memory.Inbox.{InboxRows, TxInbox, Pending, register, complete}
use dmpf.Memory.Store.{Tx}

module _ {Ident S Ev : Type 0} where
  abbrev pub completed_in :
      Tx Ident S Ev → InboxRows × Result Pending → Tx Ident S Ev × Result (Unit {0})
  completed_in tx (rows, ok done) = (record tx { inbox = rows }, ok tt)
  completed_in tx (rows, err x) = (record tx { inbox = rows }, err x)
  completed_in tx (rows, panic) = (record tx { inbox = rows }, panic)

  abbrev pub inbox_of : TxInbox → Context → Inbox (Tx Ident S Ev) Pending
  inbox_of i ctx = record {
    register = λ r tx. (tx, register i ctx r tx.inbox);
    complete = λ p c tx. completed_in tx (complete p c tx.inbox);
  }
