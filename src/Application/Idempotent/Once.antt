-- ===== src/Application/Idempotent/Once.antt =====
-- idempotent.go: what a command that ran for the first time tells of the steps it took, over any inbox.
use dmpf.Prelude.{ℕ, List, ◌≡◌, ◌≢◌, refl, some, true, false, arith, ap}
use dmpf.Ports.Results.{Result, ok, err, panic, Error, idempotency_mismatch}
use dmpf.Ports.Context.{Context}
use dmpf.Ports.Inbox.{Receipt, Reception, first, was_processed, was_rejected, collision}
use dmpf.Ports.IdempotencyKey.{claim_replayed, claim_mismatch}
use dmpf.Ports.Transaction.{chain_ok}
use dmpf.Application.Decide.{Outcome}
use dmpf.Application.OutcomeCodec.{Texts, decode_outcome}
use dmpf.Application.Idempotent.{
  IdempotentCommand, Run, receipt_of, completion_of, run_first, replay, match_reception, registered,
  refused_registration, run_idempotent, marked,
}

module _ (t : Texts) {W P R : Type 0} (cmd : IdempotentCommand W P R) where
  -- A first run of a command: its guards passed, the inbox had not seen it, it ran, and it was completed
  -- with the outcome that it answers.
  pub record FirstRun (ctx : Context) (w last : W) (o : Outcome R) : Type 0 where
    pub receipt : Receipt
    pub pending : P
    pub opened : W
    pub ran : W
    pub guarded : receipt_of t cmd ctx ≡ ok receipt
    pub received : cmd.inbox.register receipt w ≡ (opened, ok (first pending))
    pub executed : cmd.run opened ≡ (ran, ok o)
    pub completed : cmd.inbox.complete pending (completion_of t cmd o) ran ≡ (last, ok tt)

  replay_old : (stored : List ℕ) (o : Outcome R) → replay t cmd stored ≢ ok (o, false)
  replay_old stored o h = ground arith

  run_first_new :
      (pending : P) (w last : W) (o : Outcome R)
      → run_first t cmd pending w ≡ (last, ok (o, false))
      → (ran : W) × (cmd.run w ≡ (ran, ok o))
        × (cmd.inbox.complete pending (completion_of t cmd o) ran ≡ (last, ok tt))
  unfolding run_first
  run_first_new pending w last o h =
      let (ran, a, executed, rest) = chain_ok (cmd.run w) _ last (o, false) h in
      let (after, done, completed, answered) =
        chain_ok (cmd.inbox.complete pending (completion_of t cmd a) ran) _ last (o, false) rest in
      let same : a ≡ o = ground (arith, answered) in
      (ran, ground (arith, executed, same), ground (arith, completed, answered, same))

  match_new :
      (reception : Reception P) (w last : W) (o : Outcome R)
      → match_reception t cmd reception w ≡ (last, ok (o, false))
      → (pending : P) × (reception ≡ first pending)
        × (run_first t cmd pending w ≡ (last, ok (o, false)))
  unfolding match_reception
  match_new (first pending) w last o h = (pending, refl, h)
  match_new (was_processed stored) w last o h = absurd (replay_old stored o (ap (λ x. x.1) h))
  match_new (was_rejected stored) w last o h = absurd (replay_old stored o (ap (λ x. x.1) h))
  match_new collision w last o h = absurd (ground arith)

  abbrev Answered : Run W R → W → Outcome R → Type 0
  Answered r last o = (r.0 ≡ last) × (r.1.1 ≡ ok (o, false))

  refused_new :
      (x : Error) (w last : W) (o : Outcome R) → ¬ Answered (refused_registration t cmd x w) last o
  refused_new x w last o h = ground arith

  registered_new :
      (s : W × Result (Reception P)) (last : W) (o : Outcome R)
      → Answered (registered t cmd s) last o
      → (opened : W) × (reception : Reception P) × (s ≡ (opened, ok reception))
        × (match_reception t cmd reception opened ≡ (last, ok (o, false)))
  registered_new (opened, ok reception) last o (hs, hr) =
      (opened, reception, refl, λ i. (hs i, hr i))
  registered_new (w, err x) last o h = absurd (refused_new x w last o h)
  registered_new (w, panic) last o h = absurd (ground arith)

  pub run_idempotent_new :
      (ctx : Context) (w last : W) (o : Outcome R)
      → Answered (run_idempotent t cmd ctx w) last o
      → FirstRun ctx w last o
  unfolding run_idempotent
  run_idempotent_new ctx w last o h = from (receipt_of t cmd ctx) refl
    where
      from : (k : Result Receipt) → receipt_of t cmd ctx ≡ k → FirstRun ctx w last o
      from (ok receipt) e =
          let (opened, reception, received, matched) =
            registered_new (cmd.inbox.register receipt w) last o (rw (e, run_idempotent) at h) in
          let (pending, opening, running) = match_new reception opened last o matched in
          let (ran, executed, completed) = run_first_new pending opened last o running in
          record {
            receipt = receipt;
            pending = pending;
            opened = opened;
            ran = ran;
            guarded = e;
            received = ground (arith, received, opening);
            executed = executed;
            completed = completed;
          }
      from (err x) e = absurd (ground arith)
      from panic e = absurd (ground arith)

  -- What a registration that answers decides.
  pub run_idempotent_received :
      (ctx : Context) (r : Receipt) (w opened : W) (reception : Reception P)
      → receipt_of t cmd ctx ≡ ok r
      → cmd.inbox.register r w ≡ (opened, ok reception)
      → run_idempotent t cmd ctx w ≡ marked t cmd (match_reception t cmd reception opened)
  unfolding run_idempotent
  run_idempotent_received ctx r w opened reception guarded received =
      rw (guarded, run_idempotent) (rw received refl)

  pub match_processed :
      (stored : List ℕ) (w : W) (o : Outcome R)
      → decode_outcome t cmd.codec stored ≡ ok o
      → marked t cmd (match_reception t cmd (was_processed stored) w)
        ≡ (w, (some claim_replayed, ok (o, true)))
  unfolding match_reception
  match_processed stored w o h = rw h refl

  pub match_rejected :
      (stored : List ℕ) (w : W) (o : Outcome R)
      → decode_outcome t cmd.codec stored ≡ ok o
      → marked t cmd (match_reception t cmd (was_rejected stored) w)
        ≡ (w, (some claim_replayed, ok (o, true)))
  unfolding match_reception
  match_rejected stored w o h = rw h refl

  pub match_collision :
      (w : W)
      → marked t cmd (match_reception t cmd collision w)
        ≡ (w, (some claim_mismatch, err idempotency_mismatch))
  unfolding match_reception
  match_collision w = refl
