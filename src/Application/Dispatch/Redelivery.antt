-- ===== src/Application/Dispatch/Redelivery.antt =====
-- dispatch.go over the in-memory store: a command that was settled is not sent again.
use dmpf.Prelude.{◌+◌, ◌≡◌, refl, ap, String, List, [], none, Eq}
use dmpf.Ports.Results.{Result, ok}
use dmpf.Ports.Context.{Context}
use dmpf.Ports.Inbox.{was_processed}
use dmpf.Ports.Attempts.{ExternalClass, Attempt, AttemptStart, done}
use dmpf.Memory.Inbox.{TxInbox, Pending, register}
use dmpf.Memory.Attempts.Ledger.{Ledger, begin}
use dmpf.Memory.Store.{Store, Tx}
use dmpf.Memory.Store.Atomicity.{opened, within_same}
use dmpf.Memory.Store.AttemptCalls.{tx_begin, attempt_store_begin}
use dmpf.Application.Disposition.{r2}
use dmpf.Application.Dispatch.{
  ExternalPorts, ExternalDispatch, ExternalStep, Submission, already_done, close, settle_reception,
  settle_in, settle, on_start, run,
}
use dmpf.Application.Dispatch.Stored.{World, ports_over}

-- Two transactions that leave the contents of the store.
abbrev pub two_transactions : {Ident S Ev : Type 0} → World Ident S Ev → World Ident S Ev
two_transactions w = record w {
  store = record (w.store) {
    within_calls = w.store.within_calls + 1 + 1;
    commits = w.store.commits + 1 + 1;
  };
}

module _ {Ident S Ev : Type 0} ⦃e : Eq Ident⦄ (i : TxInbox) (there : Context)
    (partner : List String → Submission)
    (apply : ExternalStep → Tx Ident S Ev → Tx Ident S Ev × Result (Unit {0})) where
  abbrev ports_again : ExternalPorts (World Ident S Ev) (Tx Ident S Ev) Pending
  ports_again = ports_over there i partner apply

  begun_done :
      (d : ExternalDispatch) (s : Store Ident S Ev) (a : Attempt) (c : ExternalClass)
      → s.fail_next_commit ≡ none
      → begin there d.key d.receipt.message_id d.clock.at_begin s.attempts
        ≡ (s.attempts, ok (done a c))
      → attempt_store_begin none none there d.key d.receipt.message_id d.clock.at_begin s
        ≡ (record s { within_calls = s.within_calls + 1; commits = s.commits + 1 }, ok (done a c))
  begun_done d s a c clear h =
      within_same (tx_begin there d.key d.receipt.message_id d.clock.at_begin) s (done a c) clear
        (ap (λ (x : Ledger × Result AttemptStart). (record (opened s) { attempts = x.0 }, x.1)) h)

  settled_processed :
      (d : ExternalDispatch) (a : Attempt) (c : ExternalClass) (tx : Tx Ident S Ev)
      → register i there d.receipt tx.inbox ≡ ok (was_processed [])
      → settle_in ports_again d (already_done a c) tx ≡ (tx, ok (r2, none))
  unfolding settle_in settle_reception close
  settled_processed d a c tx h = rw (h, settle_in) refl

  pub run_redelivered :
      (d : ExternalDispatch) (w : World Ident S Ev) (a : Attempt) (c : ExternalClass)
      → w.store.fail_next_commit ≡ none
      → begin there d.key d.receipt.message_id d.clock.at_begin w.store.attempts
        ≡ (w.store.attempts, ok (done a c))
      → register i there d.receipt w.store.inbox ≡ ok (was_processed [])
      → run ports_again d w ≡ (two_transactions w, ok r2)
  unfolding run on_start settle
  run_redelivered d w a c clear begun processed =
      let s1 : Store Ident S Ev = record (w.store) {
        within_calls = w.store.within_calls + 1;
        commits = w.store.commits + 1;
      } in
      let one = begun_done d (w.store) a c clear begun in
      let two =
        within_same (settle_in ports_again d (already_done a c)) s1 (r2, none) clear
          (settled_processed d a c (opened s1) processed) in
      rw (one, run) (rw two refl)
