-- ===== src/Application/Dispatch/Once.antt =====
-- dispatch.go over the in-memory store: a command that was settled is settled once.
use dmpf.Prelude.{
  ◌≡◌, refl, sym, ap, ◌∙◌, subst, String, List, [], ◌∷◌, ◌++◌, false, none, Eq, arith,
}
use dmpf.Prelude.Int.{ℤ, pos}
use dmpf.Ports.Results.{Result, ok, err, panic}
use dmpf.Ports.Context.{Context}
use dmpf.Ports.Transaction.{chain_ok}
use dmpf.Ports.Inbox.{Completion, first, was_processed}
use dmpf.Ports.Attempts.{is_retryable, Attempt, AttemptStart, started, Finished}
use dmpf.Memory.Rows.{scoped_key}
use dmpf.Memory.Inbox.{InboxRows, TxInbox, Pending, register, complete, filed_id}
use dmpf.Memory.Inbox.Replays.{IsHeld, register-complete}
use dmpf.Memory.Attempts.Ledger.{begin, finish}
use dmpf.Memory.Attempts.Ledger.Answers.{Closed, begin-finish}
use dmpf.Memory.Attempts.Ledger.Calls as Ledger
use dmpf.Memory.Attempts.Ledger.Settled.{begin_settled}
use dmpf.Memory.Inbox.Held.{Holds, register-IsAnswered}
use dmpf.Memory.Store.{Store, Tx, within}
use dmpf.Memory.Store.Atomicity.{opened, within_succeeded}
use dmpf.Memory.Store.Receptions.{completed_in}
use dmpf.Memory.Store.AttemptCalls.{tx_begin}
use dmpf.Application.Disposition.{Disposition, r1d1, r2}
use dmpf.Application.Dispatch.{
  ExternalPorts, ExternalDispatch, ExternalStep, Submission, Settlement, Settled, submitted,
  outcome_of, completion, step_of, apply_recorded, settle_in, settle, run, certain_class,
}
use dmpf.Application.Dispatch.Steps.{settle_in_first, run_submitted}
use dmpf.Application.Dispatch.Stored.{World, ports_over}
use dmpf.Application.Dispatch.Redelivery.{two_transactions, run_redelivered}

-- A redelivery of the message, in its tenant and under its key.
pub record IsRedelivery (i : TxInbox) (ctx there : Context) (d later : ExternalDispatch)
    : Type 0 where
  pub same_key : later.key ≡ d.key
  pub same_scope : scoped_key there d.key ≡ scoped_key ctx d.key
  pub same_message : later.receipt.message_id ≡ d.receipt.message_id
  pub same_consumer : later.receipt.consumer ≡ d.receipt.consumer
  pub same_hash : later.receipt.payload_hash ≡ d.receipt.payload_hash
  pub same_filing : filed_id i there later.receipt ≡ filed_id i ctx d.receipt
  pub held : IsHeld d.receipt.expires_at later.receipt.received_at

-- A world that comes later than the settlement, after calls of the ledger.
pub record IsLater {Ident S Ev : Type 0} (after mid : World Ident S Ev) (ms : List Ledger.Move)
    : Type 0 where
  pub calls : mid.store.attempts ≡ Ledger.run after.store.attempts ms
  pub holds : Holds after.store.inbox mid.store.inbox
  pub unarmed : mid.store.fail_next_commit ≡ none

module _ {Ident S Ev : Type 0} ⦃e : Eq Ident⦄ (i : TxInbox) (ctx : Context)
    (partner : List String → Submission)
    (apply : ExternalStep → Tx Ident S Ev → Tx Ident S Ev × Result (Unit {0})) where
  abbrev ports : ExternalPorts (World Ident S Ev) (Tx Ident S Ev) Pending
  ports = ports_over ctx i partner apply

  -- What the use case applies leaves the ledger alone.
  abbrev pub KeepsAttempts : Type 0
  KeepsAttempts =
      (step : ExternalStep) (tx : Tx Ident S Ev) → (apply step tx).0.attempts ≡ tx.attempts

  applied_attempts :
      (d : ExternalDispatch) (s : Settlement) (f : Finished) (tx last : Tx Ident S Ev)
      → KeepsAttempts
      → apply_recorded ports d s f tx ≡ (last, ok tt)
      → last.attempts ≡ tx.attempts
  applied_attempts d s f tx last keeps h = ground (arith, keeps (step_of ports d s) tx, h)

  within_store :
      (fn : Tx Ident S Ev → Tx Ident S Ev × Result Settled) (w last : World Ident S Ev)
      (settled : Settled)
      → ports.within fn w ≡ (last, ok settled)
      → (within none none fn w.store ≡ (last.store, ok settled)) × (last.sent ≡ w.sent)
  within_store fn w last settled h = ground (arith, h)

  settle_store :
      (d : ExternalDispatch) (s : Settlement) (w last : World Ident S Ev) (answer : Disposition)
      → settle ports d s w ≡ (last, ok answer)
      → (settled : Settled) × (within none none (settle_in ports d s) w.store
          ≡ (last.store, ok settled))
        × (last.sent ≡ w.sent)
        × (settled.0 ≡ answer)
  unfolding settle
  settle_store d s w last answer h =
      let (mid, settled, ran, rest) =
        chain_ok (ports.within (settle_in ports d s) w) _ last answer h in
      let (stored, sent) = within_store (settle_in ports d s) w mid settled ran in
      (settled, ground (arith, stored, rest), ground (arith, sent, rest), ground (arith, rest))

  begun_attempts :
      (key message : String) (now : ℤ) (w begun : World Ident S Ev) (start : AttemptStart)
      → ports.store_begin key message now w ≡ (begun, ok start)
      → (begin ctx key message now w.store.attempts ≡ (begun.store.attempts, ok start))
        × (begun.sent ≡ w.sent)
  begun_attempts key message now w begun start h =
      let (called, live, awake, clear, stored) =
        within_succeeded none none (tx_begin ctx key message now) w.store start
          (ap (λ (x : World Ident S Ev × Result AttemptStart). x.1) h) in
      ground (arith, called, stored, h)

  completed_rows :
      (p : Pending) (tx last : Tx Ident S Ev) (c : Completion)
      → completed_in tx (complete p c tx.inbox) ≡ (last, ok tt)
      → (q : Pending) × ((complete p c tx.inbox).1 ≡ ok q)
        × (last.inbox ≡ (complete p c tx.inbox).0)
        × (last.attempts ≡ tx.attempts)
  completed_rows p tx last c h = from (complete p c tx.inbox) refl
    where
      from :
          (k : InboxRows × Result Pending)
          → complete p c tx.inbox ≡ k
          → (q : Pending) × (k.1 ≡ ok q) × (last.inbox ≡ k.0) × (last.attempts ≡ tx.attempts)
      from (rows, ok q) e = (q, refl, ground (arith, e, h), ground (arith, e, h))
      from (rows, err x) e = absurd (ground (arith, e, h))
      from (rows, panic) e = absurd (ground (arith, e, h))

  module _ (keeps : KeepsAttempts) (d later : ExternalDispatch) (there : Context)
      (again : IsRedelivery i ctx there d later) (partner_later : List String → Submission)
      (apply_later : ExternalStep → Tx Ident S Ev → Tx Ident S Ev × Result (Unit {0})) where
    -- What the transaction of a first reception leaves for the redelivery.
    settled_answers :
        (w begun : World Ident S Ev) (a : Attempt) (s : Settlement) (tx last : Tx Ident S Ev)
        (settled : Settled)
        → begin ctx d.key d.receipt.message_id d.clock.at_begin w.store.attempts
          ≡ (begun.store.attempts, ok (started a))
        → s.attempt ≡ a
        → is_retryable s.class ≡ false
        → tx.attempts ≡ begun.store.attempts
        → settle_in ports d s tx ≡ (last, ok settled)
        → settled.0 ≡ r1d1
        → Closed ctx d.key d.receipt.message_id last.attempts
          × (register i there later.receipt last.inbox ≡ ok (was_processed []))
    settled_answers w begun a s tx last settled opening same final left settling answer =
        let steps = settle_in_first ports d s tx last settled settling answer in
        let o = outcome_of s d.key d.clock.at_settle in
        let received : register i ctx d.receipt tx.inbox ≡ ok (first steps.pending) =
          ap (λ x. x.1) steps.received in
        let unmoved : steps.registered ≡ tx = sym (ap (λ x. x.0) steps.received) in
        let finished : finish ctx o begun.store.attempts
            ≡ (steps.recorded_in.attempts, ok steps.finished) =
          ground (arith, ap (λ x. finish ctx o x) left, unmoved, steps.closed) in
        let applied =
          applied_attempts d s steps.finished steps.recorded_in steps.applied_in keeps
            steps.applied in
        let (q, completed, rows, same_attempts) =
          completed_rows steps.pending steps.applied_in last (completion ports d) steps.completed in
        let (recorded_now, closed) =
          begin-finish ctx d.key d.receipt.message_id d.clock.at_begin w.store.attempts
            begun.store.attempts steps.recorded_in.attempts a o steps.finished opening finished refl
            (ap (λ (x : Attempt). pos x.n) same) final in
        let (taken, declined, other) =
          register-complete i ctx there d.receipt later.receipt tx.inbox steps.applied_in.inbox
            steps.pending q (completion ports d) received completed again.same_consumer
            again.same_filing again.held in
        (
          subst (Closed ctx d.key d.receipt.message_id) (sym (same_attempts ∙ applied)) closed,
          ap (register i there later.receipt) rows ∙ taken again.same_hash refl,
        )

    -- What the redelivery is answered in a world that comes later.
    redelivered :
        (after mid : World Ident S Ev) (ms : List Ledger.Move)
        → IsLater after mid ms
        → Closed ctx d.key d.receipt.message_id after.store.attempts
        → register i there later.receipt after.store.inbox ≡ ok (was_processed [])
        → run (ports_over there i partner_later apply_later) later mid
          ≡ (two_transactions mid, ok r2)
    redelivered after mid ms since closed processed =
        let (a, c, _, answers) =
          begin_settled ctx there d.key d.receipt.message_id later.clock.at_begin
            after.store.attempts ms closed again.same_scope in
        run_redelivered i there partner_later apply_later later mid a c since.unarmed
          (cc (answers, since.calls, again.same_key, again.same_message))
          (register-IsAnswered i there later.receipt after.store.inbox mid.store.inbox
            (was_processed []) since.holds tt processed)

    -- A command that began an attempt, was answered by the partner with a class that is not retryable, and
    -- was settled as a first reception, is sent once. Its message may be delivered again, with its key, tenant,
    -- consumer and payload hash, in any world that comes later: the ledger of attempts went on by any calls of any contexts, the inbox still holds the entries that
    -- the settlement left, no failure is armed for the next commit, and all else is arbitrary. Over a live
    -- context, and while the entry has not expired, the dispatch then sends nothing and applies nothing,
    -- whatever the partner and the use case would do: it answers R2 and leaves the contents of the store as they
    -- were. What the use case applies in the first run leaves the ledger alone, and both dispatches are past
    -- their validation.
    pub dispatch_once :
        (w begun after mid : World Ident S Ev) (a : Attempt) (ms : List Ledger.Move)
        → ports.store_begin d.key d.receipt.message_id d.clock.at_begin w ≡ (begun, ok (started a))
        → is_retryable (certain_class (partner w.sent).class) ≡ false
        → run ports d w ≡ (after, ok r1d1)
        → IsLater after mid ms
        → (after.sent ≡ w.sent ++ d.key ∷ [])
          × (run (ports_over there i partner_later apply_later) later mid
              ≡ (two_transactions mid, ok r2))
    dispatch_once w begun after mid a ms opening final ran since =
        let (began, unsent) =
          begun_attempts d.key d.receipt.message_id d.clock.at_begin w begun (started a) opening in
        let class =
          subst (λ x. is_retryable (certain_class (partner x).class) ≡ false) (sym unsent) final in
        let s = submitted a (partner begun.sent) in
        let (settled, stored, sent, answer) =
          settle_store d s (record begun { sent = begun.sent ++ d.key ∷ [] }) after r1d1
            (run_submitted ports d w begun after a r1d1 opening class ran) in
        let (called, live, awake, clear, kept) =
          within_succeeded none none (settle_in ports d s) begun.store settled
            (ap (λ x. x.1) stored) in
        let left = sym (ap (λ x. x.0) stored) ∙ kept in
        let tx = (settle_in ports d s (opened begun.store)).0 in
        let (closed, processed) =
          settled_answers w begun a s (opened begun.store) tx settled began refl class refl
            (λ j. (tx, called j)) answer in
        (
          sent ∙ ap (λ x. x ++ d.key ∷ []) unsent,
          redelivered after mid ms since
              (subst (Closed ctx d.key d.receipt.message_id)
                (sym (ap (λ (q : Store Ident S Ev). q.attempts) left)) closed)
              (ap (λ (q : Store Ident S Ev). register i there later.receipt q.inbox) left
                ∙ processed),
        )
