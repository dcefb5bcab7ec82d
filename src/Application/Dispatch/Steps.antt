-- ===== src/Application/Dispatch/Steps.antt =====
-- dispatch.go: what a settlement that was a first reception tells of the steps it took, over any ports.
use dmpf.Prelude.{◌≡◌, false, arith, Bool-cases, inl, inr}
use dmpf.Ports.Results.{ok}
use dmpf.Ports.Transaction.{chain_ok}
use dmpf.Ports.Inbox.{Reception, first, was_processed, was_rejected, collision}
use dmpf.Ports.Attempts.{is_retryable, Attempt, started, Finished}
use dmpf.Application.Disposition.{Disposition, r1d1, r2, r3, r4}
use dmpf.Application.Dispatch.{
  ExternalPorts, ExternalDispatch, ExternalStep, Submission, Settlement, Settled, submitted,
  already_done, outcome_of, submit, close, completion, apply_recorded, settle_reception, settle_in,
  settle, on_start, run, certain_class,
}
use dmpf.Application.Dispatch as Dispatch

module _ {S W P : Type 0} (ports : ExternalPorts S W P) (d : ExternalDispatch) where
  close_keeps :
      (disposition : Disposition) (s : Settlement) (w last : W) (settled : Settled)
      → close ports d disposition s w ≡ (last, ok settled)
      → settled.0 ≡ disposition
  unfolding close
  close_keeps disposition s w last settled h = elim (Bool-cases s.owned) [
    | inl owned ↦
        let (mid, f, ran, rest) =
          chain_ok (ports.ledger_finish (outcome_of s d.key d.clock.at_settle) w) _ last settled
            (rw (owned, close) at h) in
        ground (arith, rest)
    | inr other ↦ ground (arith, h, other)
  ]

  -- The steps of a settlement that was a first reception.
  pub record FirstSettled (s : Settlement) (w last : W) : Type 0 where
    pub pending : P
    pub registered : W
    pub finished : Finished
    pub recorded_in : W
    pub applied_in : W
    pub received : ports.inbox.register d.receipt w ≡ (registered, ok (first pending))
    pub closed :
        ports.ledger_finish (outcome_of s d.key d.clock.at_settle) registered
        ≡ (recorded_in, ok finished)
    pub applied : apply_recorded ports d s finished recorded_in ≡ (applied_in, ok tt)
    pub completed : ports.inbox.complete pending (completion ports d) applied_in ≡ (last, ok tt)

  finish_steps :
      (s : Settlement) (w registered last : W) (pending : P) (settled : Settled)
      → ports.inbox.register d.receipt w ≡ (registered, ok (first pending))
      → Dispatch.finish ports d s pending registered ≡ (last, ok settled)
      → FirstSettled s w last
  unfolding Dispatch.finish
  finish_steps s w registered last pending settled received h =
      let (recorded_in, f, closed, after_close) =
        chain_ok (ports.ledger_finish (outcome_of s d.key d.clock.at_settle) registered) _ last
          settled h in
      let (applied_in, done_tt, applied, after_apply) =
        chain_ok (apply_recorded ports d s f recorded_in) _ last settled after_close in
      let (end, completed_tt, completed, answered) =
        chain_ok (ports.inbox.complete pending (completion ports d) applied_in) _ last settled
          after_apply in
      record {
        pending = pending;
        registered = registered;
        finished = f;
        recorded_in = recorded_in;
        applied_in = applied_in;
        received = received;
        closed = closed;
        applied = applied;
        completed = ground (arith, completed, answered);
      }

  reception_first :
      (s : Settlement) (w registered last : W) (reception : Reception P) (settled : Settled)
      → ports.inbox.register d.receipt w ≡ (registered, ok reception)
      → settle_reception ports d s reception registered ≡ (last, ok settled)
      → settled.0 ≡ r1d1
      → FirstSettled s w last
  unfolding settle_reception
  reception_first s w registered last (first pending) settled received h answer =
      finish_steps s w registered last pending settled received h
  reception_first s w registered last (was_processed stored) settled received h answer =
      absurd (ground (arith, close_keeps r2 s registered last settled h, answer))
  reception_first s w registered last (was_rejected stored) settled received h answer =
      absurd (ground (arith, close_keeps r3 s registered last settled h, answer))
  reception_first s w registered last collision settled received h answer =
      absurd (ground (arith, close_keeps r4 s registered last settled h, answer))

  pub settle_in_first :
      (s : Settlement) (w last : W) (settled : Settled)
      → settle_in ports d s w ≡ (last, ok settled)
      → settled.0 ≡ r1d1
      → FirstSettled s w last
  unfolding settle_in
  settle_in_first s w last settled h answer =
      let (registered, reception, received, rest) =
        chain_ok (ports.inbox.register d.receipt w) _ last settled h in
      reception_first s w registered last reception settled received rest answer

  -- A command that was sent and answered with a class that is not retryable goes on to its settlement.
  pub run_submitted :
      (w begun last : S) (a : Attempt) (disposition : Disposition)
      → ports.store_begin d.key d.receipt.message_id d.clock.at_begin w ≡ (begun, ok (started a))
      → let sent = ports.submit d.key begun in
        is_retryable (certain_class sent.1.class) ≡ false
        → run ports d w ≡ (last, ok disposition)
        → settle ports d (submitted a sent.1) sent.0 ≡ (last, ok disposition)
  unfolding run on_start submit
  run_submitted w begun last a disposition started_now final h =
      ground (arith, rw (started_now, run) at h, final)
