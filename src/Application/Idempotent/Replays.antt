-- ===== src/Application/Idempotent/Replays.antt =====
-- idempotent.go over the in-memory inbox: a retry of a command is answered and does not run.
use dmpf.Prelude.{String, ◌≡◌, ◌≢◌, refl, sym, ap, ◌∙◌, Option, some, true, false, arith, subst}
use dmpf.Prelude.Int.{ℤ, ◌<ℤ◌}
use dmpf.Prelude.Word.{add64}
use dmpf.Ports.Results.{Result, ok, err, panic, idempotency_mismatch}
use dmpf.Ports.Context.{Context, ExecutionContext, require_execution_context}
use dmpf.Ports.Inbox.{
  Receipt, Completion, Reception, first, was_processed, was_rejected, processed, rejected,
  collision,
}
use dmpf.Ports.IdempotencyKey.{claim_replayed, claim_mismatch}
use dmpf.Memory.Inbox.{InboxRows, TxInbox, Pending, register, complete, filed_id}
use dmpf.Memory.Inbox.Replays.{IsHeld, register-complete, register_first}
use dmpf.Memory.Inbox.Held.{Holds, IsAnswered, register-IsAnswered}
use dmpf.Memory.Rows.{scoped_key}
use dmpf.Memory.Store.{Tx}
use dmpf.Memory.Store.Receptions.{inbox_of, completed_in}
use dmpf.Application.Decide.{Outcome, accept, refuse}
use dmpf.Application.OutcomeCodec.{Texts, decode_outcome, encode_outcome}
use dmpf.Application.OutcomeCodec.Outcomes.{IsCodec, IsReadable, decode_outcome-encode_outcome}
use dmpf.Application.Fingerprint.{Fingerprint}
use dmpf.Application.Idempotent.{
  IdempotentCommand, receipt_of, completion_of, run_idempotent, key_of, payload_hash, wait_until,
  status_of,
}
use dmpf.Application.Idempotent.Once.{
  run_idempotent_new, run_idempotent_received, match_processed, match_rejected, match_collision,
}

-- Two carriers of one command: the key and the tenant are the same, the rest may differ.
pub record IsRetryOf (ctx there : Context) : Type 0 where
  pub execution : ExecutionContext
  pub later : ExecutionContext
  pub held : ctx.execution ≡ some execution
  pub held_later : there.execution ≡ some later
  pub same_tenant : later.tenant ≡ execution.tenant
  pub same_key : there.idempotency_key ≡ ctx.idempotency_key

abbrev pub Command : Type 0 → Type 0 → Type 0 → Type 0 → Type 0
Command Ident S Ev R = IdempotentCommand (Tx Ident S Ev) Pending R

module _ {Ident S Ev R : Type 0} where
  -- The command with the inbox of its transaction.
  abbrev pub through : TxInbox → Context → Command Ident S Ev R → Command Ident S Ev R
  through i ctx cmd = record cmd { inbox = inbox_of i ctx }

  -- A later command under the same key: it reads the clock again, has a fingerprint of its own, and
  -- would run `run`.
  abbrev pub retry :
      Command Ident S Ev R
      → ℤ
      → Option Fingerprint
      → (Tx Ident S Ev → Tx Ident S Ev × Result (Outcome R))
      → Command Ident S Ev R
  retry cmd later print run = record cmd { now = later; fingerprint = print; run = run }

module _ (t : Texts) {Ident S Ev R : Type 0} (i : TxInbox) where
  module _ (cmd : Command Ident S Ev R) (ctx there : Context) (caller : IsRetryOf ctx there)
      (later : ℤ) (print : Option Fingerprint) (hash : String)
      (hashed : payload_hash t cmd.operation print cmd.policy ≡ ok hash)
      (run : Tx Ident S Ev → Tx Ident S Ev × Result (Outcome R)) where
    abbrev later_command : Command Ident S Ev R
    later_command = through i there (retry cmd later print run)

    abbrev receipt_again : Receipt → Receipt
    receipt_again r = record r {
      payload_hash = hash;
      received_at = later;
      wait_until = wait_until later cmd.policy.wait caller.later.deadline;
      expires_at = add64 later cmd.policy.retention;
    }

    receipt_of_again :
        (r : Receipt)
        → receipt_of t (through i ctx cmd) ctx ≡ ok r
        → (receipt_of t later_command there ≡ ok (receipt_again r))
          × (payload_hash t cmd.operation cmd.fingerprint cmd.policy ≡ ok r.payload_hash)
          × (r.expires_at ≡ add64 cmd.now cmd.policy.retention)
    unfolding receipt_of key_of require_execution_context
    receipt_of_again r h = ground (arith, caller.held, caller.held_later, caller.same_key)

    filed_again :
        (r : Receipt) (id : String)
        → later <ℤ add64 later cmd.policy.retention
        → filed_id i ctx r ≡ ok id
        → filed_id i there (receipt_again r) ≡ ok id
    unfolding filed_id scoped_key
    filed_again r id keeps h = ground (arith, caller.held, caller.held_later, caller.same_tenant)

    completed_ok :
        (p : Pending) (c : Completion) (ran last : Tx Ident S Ev)
        → completed_in ran (complete p c ran.inbox) ≡ (last, ok tt)
        → (q : Pending) × ((complete p c ran.inbox).1 ≡ ok q)
          × (last.inbox ≡ (complete p c ran.inbox).0)
    completed_ok p c ran last h = from (complete p c ran.inbox) refl
      where
        from :
            (k : InboxRows × Result Pending)
            → complete p c ran.inbox ≡ k
            → (q : Pending) × (k.1 ≡ ok q) × (last.inbox ≡ k.0)
        from (rows, ok q) e = (q, refl, ground (arith, e, h))
        from (rows, err x) e = absurd (ground (arith, e, h))
        from (rows, panic) e = absurd (ground (arith, e, h))

    module _ (Valid : R → Type 0) (lawful : IsCodec cmd.codec Valid) (o : Outcome R)
        (readable : IsReadable t Valid o) where
      -- What the inbox answers to the retry, read through the codec.
      replayed :
          (r : Receipt) (tx : Tx Ident S Ev)
          → receipt_of t later_command there ≡ ok r
          → (status_of o ≡ processed
              → register i there r tx.inbox ≡ ok (was_processed (encode_outcome t cmd.codec o)))
          → (status_of o ≡ rejected
              → register i there r tx.inbox ≡ ok (was_rejected (encode_outcome t cmd.codec o)))
          → run_idempotent t later_command there tx ≡ (tx, (some claim_replayed, ok (o, true)))
      replayed r tx guarded taken declined = from o refl
        where
          decoded : decode_outcome t cmd.codec (encode_outcome t cmd.codec o) ≡ ok o
          decoded = decode_outcome-encode_outcome t cmd.codec Valid lawful o readable

          from :
              (k : Outcome R)
              → o ≡ k
              → run_idempotent t later_command there tx ≡ (tx, (some claim_replayed, ok (o, true)))
          from (accept a) e =
              let received = ap (λ x. (tx, x)) (taken (ap status_of e)) in
              run_idempotent_received t later_command there r tx tx _ guarded received
              ∙ match_processed t later_command _ tx o decoded
          from (refuse a) e =
              let received = ap (λ x. (tx, x)) (declined (ap status_of e)) in
              run_idempotent_received t later_command there r tx tx _ guarded received
              ∙ match_rejected t later_command _ tx o decoded

      mismatched :
          (r : Receipt) (tx : Tx Ident S Ev)
          → receipt_of t later_command there ≡ ok r
          → register i there r tx.inbox ≡ ok collision
          → run_idempotent t later_command there tx
            ≡ (tx, (some claim_mismatch, err idempotency_mismatch))
      mismatched r tx guarded received =
          run_idempotent_received t later_command there r tx tx _ guarded
            (ap (λ x. (tx, x)) received)
          ∙ match_collision t later_command tx

      -- A command that ran for the first time is never run again under its key, in its tenant, at a time
      -- when its entry is held, whatever the later command would have run: over an inbox that holds what it left, a
      -- command of the same payload hash is answered with the outcome of the first run, on both branches,
      -- as a replay, and one of another payload hash is refused as a mismatch; either leaves the
      -- transaction as it was. The outcome is one that its codec reads back.
      pub run_idempotent_again :
          (tx last now_tx : Tx Ident S Ev)
          → let first_run = run_idempotent t (through i ctx cmd) ctx tx in
            first_run.0 ≡ last
            → first_run.1.1 ≡ ok (o, false)
            → Holds last.inbox now_tx.inbox
            → later <ℤ add64 later cmd.policy.retention
            → IsHeld (add64 cmd.now cmd.policy.retention) later
            → let first_hash = payload_hash t cmd.operation cmd.fingerprint cmd.policy in
              let answer = run_idempotent t later_command there now_tx in
              (first_hash ≡ ok hash → answer ≡ (now_tx, (some claim_replayed, ok (o, true))))
              × (first_hash ≢ ok hash
                  → answer ≡ (now_tx, (some claim_mismatch, err idempotency_mismatch)))
      run_idempotent_again tx last now_tx left answered stands keeps held =
          let ran = run_idempotent_new t (through i ctx cmd) ctx tx last o (left, answered) in
          let r = ran.receipt in
          let (guarded, first_hash, expiry) = receipt_of_again r ran.guarded in
          let received : register i ctx r tx.inbox ≡ ok (first ran.pending) =
            ap (λ x. x.1) ran.received in
          let (id, filed, pending, served) = register_first i ctx r tx.inbox ran.pending received in
          let (q, completed, rows) =
            completed_ok ran.pending (completion_of t cmd o) ran.ran last ran.completed in
          let (taken, declined, other) =
            register-complete i ctx there r (receipt_again r) tx.inbox ran.ran.inbox ran.pending q
              (completion_of t cmd o) received completed refl
              (filed_again r id keeps filed ∙ sym filed)
              (subst (λ x. IsHeld x later) (sym expiry) held) in
          let here : (answer : Reception Pending)
              → IsAnswered answer
              → register i there (receipt_again r)
                  (complete ran.pending (completion_of t cmd o) ran.ran.inbox).0
                ≡ ok answer
              → register i there (receipt_again r) now_tx.inbox ≡ ok answer =
            λ answer known h.
              register-IsAnswered i there (receipt_again r) last.inbox now_tx.inbox answer stands
                known (ap (register i there (receipt_again r)) rows ∙ h) in
          (
            λ e.
                let one : hash ≡ r.payload_hash = ground (arith, e, first_hash) in
                replayed (receipt_again r) now_tx guarded (λ s. here _ tt (taken one s))
                  (λ s. here _ tt (declined one s)),
            λ e.
                mismatched (receipt_again r) now_tx guarded
                  (here collision tt (other (λ one. e (first_hash ∙ ap ok (sym one))))),
          )
