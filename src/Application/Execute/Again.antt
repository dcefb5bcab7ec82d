-- ===== src/Application/Execute/Again.antt =====
-- execute.go: a command that is executed twice under one key takes effect once.
use dmpf.Prelude.{
  ◌+◌, ◌≡◌, ◌≢◌, refl, sym, ap, ◌∙◌, String, List, [], ◌∷◌, true, false, Option, none, some, Eq,
  arith, subst,
}
use dmpf.Prelude.Int.{ℤ, ◌<ℤ◌}
use dmpf.Prelude.Word.{add64}
use dmpf.Ports.Results.{Result, ok, err, panic, Error, idempotency_mismatch}
use dmpf.Ports.Context.{Context}
use dmpf.Ports.Instrumentation.{Report, begun, ended, audited, outcome_failed}
use dmpf.Memory.Inbox.Replays.{IsHeld}
use dmpf.Memory.Inbox.Held.{Holds}
use dmpf.Memory.Store.{Store, Tx, within}
use dmpf.Memory.Store.Atomicity.{opened, within_succeeded, within_same, within_refused}
use dmpf.Application.Decide.{Outcome, Identity}
use dmpf.Application.OutcomeCodec.{Texts}
use dmpf.Application.OutcomeCodec.Outcomes.{IsCodec, IsReadable}
use dmpf.Application.Fingerprint.{Fingerprint}
use dmpf.Application.Idempotent.{Answer, payload_hash}
use dmpf.Application.Idempotent.Replays.{IsRetryOf, run_idempotent_again}
use dmpf.Application.Execute.{
  Executor, Command, category, idempotent_command, resolve_identity, callback, conclude, authorized,
  execute,
}

resolved_at :
    (now : ℤ) (supply : List String) (identity : Identity)
    → resolve_identity now supply ≡ ok identity
    → identity.occurred_at ≡ now
unfolding resolve_identity
resolved_at now supply identity h = ground arith

-- A later command of the operation: another fingerprint and another run.
abbrev pub repeated :
    {W Op R : Type 0}
    → Command W Op R
    → Option Fingerprint
    → (Context → Identity → W → W × Result (Outcome R))
    → Command W Op R
repeated c print run = record c { fingerprint = print; run = run }

module _ (t : Texts) {Ident S Ev Op R : Type 0} ⦃e : Eq Ident⦄ (x : Executor Op) where
  module _ (c : Command (Tx Ident S Ev) Op R) (ctx : Context) where
    -- A command that took effect reports its outcome and its audit.
    abbrev pub effect_of : ℤ → Outcome R → List Report × Result (Outcome R)
    effect_of now o = (
      begun c.operation
          ∷ ended (category o) none
          ∷ audited c.object c.operation (category o) now
          ∷ [],
      ok o,
    )

    -- A command that is replayed reports its outcome and no audit.
    abbrev pub replay_of : Outcome R → List Report × Result (Outcome R)
    replay_of o = (begun c.operation ∷ ended (category o) none ∷ [], ok o)

    -- A command that fails reports its error alone.
    abbrev pub failure_of : Error → List Report × Result (Outcome R)
    failure_of y = (begun c.operation ∷ ended outcome_failed (some y) ∷ [], err y)

    conclude_effect :
        (identity : Identity) (r : Store Ident S Ev × Result (Answer R)) (now : ℤ) (o : Outcome R)
        → (conclude t x c ctx identity r).1 ≡ effect_of now o
        → (r.1 ≡ ok (o, false)) × (identity.occurred_at ≡ now)
    unfolding conclude
    conclude_effect identity (s, ok (a, true)) now o h = absurd (ground arith)
    conclude_effect identity (s, ok (a, false)) now o h = ground arith
    conclude_effect identity (s, err y) now o h = absurd (ground arith)
    conclude_effect identity (s, panic) now o h = absurd (ground arith)

    conclude_store :
        (identity : Identity) (r : Store Ident S Ev × Result (Answer R))
        → (conclude t x c ctx identity r).0 ≡ r.0
    unfolding conclude
    conclude_store identity (s, ok (a, b)) = refl
    conclude_store identity (s, err y) = refl
    conclude_store identity (s, panic) = refl

    conclude_replay :
        (identity : Identity) (s : Store Ident S Ev) (o : Outcome R)
        → conclude t x c ctx identity (s, ok (o, true)) ≡ (s, replay_of o)
    unfolding conclude
    conclude_replay identity s o = refl

    conclude_failure :
        (identity : Identity) (s : Store Ident S Ev) (y : Error)
        → conclude t x c ctx identity (s, err y) ≡ (s, failure_of y)
    unfolding conclude
    conclude_failure identity s y = refl

    module _ (now : ℤ) (supply : List String) (before queued : Option Error)
        (s : Store Ident S Ev) where
      execute_allowed :
          (identity : Identity)
          → x.authorize ctx c.input ≡ ok tt
          → resolve_identity now supply ≡ ok identity
          → execute t x c ctx now supply before queued s
            ≡ conclude t x c ctx identity (within before queued (callback t x c ctx identity) s)
      unfolding execute authorized
      execute_allowed identity allowed resolved =
          rw (allowed, execute) (rw (resolved, authorized) refl)

      authorized_effect :
          (o : Outcome R)
          → (authorized t x c ctx now supply before queued s).1 ≡ effect_of now o
          → (identity : Identity) × (authorized t x c ctx now supply before queued s
              ≡ conclude t x c ctx identity (within before queued (callback t x c ctx identity) s))
      unfolding authorized
      authorized_effect o h = from (resolve_identity now supply) refl
        where
          from :
              (k : Result Identity)
              → resolve_identity now supply ≡ k
              → (identity : Identity) × (authorized t x c ctx now supply before queued s
                  ≡ conclude t x c ctx identity
                      (within before queued (callback t x c ctx identity) s))
          from (ok identity) e = (identity, rw (e, authorized) refl)
          from (err y) e = absurd (ground (arith, ap (λ r. r.1) (rw (e, authorized) at h)))
          from panic e = absurd (ground (arith, ap (λ r. r.1) (rw (e, authorized) at h)))

      -- An execution that took effect was allowed, had an identity, and its transaction answered.
      execute_effect :
          (o : Outcome R)
          → (execute t x c ctx now supply before queued s).1 ≡ effect_of now o
          → (identity : Identity) × (execute t x c ctx now supply before queued s
              ≡ conclude t x c ctx identity (within before queued (callback t x c ctx identity) s))
      unfolding execute
      execute_effect o h = from (x.authorize ctx c.input) refl
        where
          from :
              (k : Result (Unit {0}))
              → x.authorize ctx c.input ≡ k
              → (identity : Identity) × (execute t x c ctx now supply before queued s
                  ≡ conclude t x c ctx identity
                      (within before queued (callback t x c ctx identity) s))
          from (ok allowed) e =
              let (identity, same) = authorized_effect o (rw (e, execute) at h) in
              (identity, rw (e, execute) same)
          from (err y) e = absurd (ground (arith, ap (λ r. r.1) (rw (e, execute) at h)))
          from panic e = absurd (ground (arith, ap (λ r. r.1) (rw (e, execute) at h)))

  module _ (c : Command (Tx Ident S Ev) Op R) (ctx there : Context) (caller : IsRetryOf ctx there)
      (Valid : R → Type 0) (lawful : IsCodec c.codec Valid) where
    -- A command that took effect takes effect once, where its outcome can be read back: an acceptance whose
    -- response is one that the operation's lawful codec decodes, or a refusal of at most 1,024 details whose
    -- texts have lengths within uint64. The operation may be executed again under the same key and in the same
    -- tenant, over any store whose inbox still holds the entries that the first execution left and with no
    -- failure armed for the next commit. While the entry has not expired, and at an instant whose sum with the
    -- retention lies after it in int64, a later execution that is allowed, has an identity and runs over a live
    -- context runs nothing, whatever it would have run: under the same payload hash it returns the outcome of
    -- the first execution and reports no audit, and under another it fails with a mismatch. Both leave the
    -- tables, the inbox, the outbox and the attempts of the store as they were.
    pub execute_again :
        (o : Outcome R)
        → IsReadable t Valid o
        → (now : ℤ) (supply : List String) (before queued : Option Error)
          (s after mid : Store Ident S Ev)
        → execute t x c ctx now supply before queued s ≡ (after, effect_of c ctx now o)
        → (print : Option Fingerprint) (hash : String)
        → payload_hash t c.operation print x.policy ≡ ok hash
        → (run : Context → Identity → Tx Ident S Ev → Tx Ident S Ev × Result (Outcome R))
        → (later : ℤ) (more : List String) (identity : Identity) → x.authorize there c.input ≡ ok tt
        → resolve_identity later more ≡ ok identity
        → Holds after.inbox mid.inbox
        → mid.fail_next_commit ≡ none
        → later <ℤ add64 later x.policy.retention
        → IsHeld (add64 now x.policy.retention) later
        → let first_hash = payload_hash t c.operation c.fingerprint x.policy in
          let answer = execute t x (repeated c print run) there later more none none mid in
          (first_hash ≡ ok hash
            → answer ≡ (
              record mid { within_calls = mid.within_calls + 1; commits = mid.commits + 1 },
              replay_of c ctx o,
            ))
          × (first_hash ≢ ok hash
              → answer ≡ (
                record mid { within_calls = mid.within_calls + 1 },
                failure_of c ctx idempotency_mismatch,
              ))
    execute_again o readable now supply before queued s after mid done print hash hashed run later
          more identity allowed resolved stands armed keeps held =
        let (first, ran) = execute_effect c ctx now supply before queued s o (ap (λ r. r.1) done) in
        let (answered, at_now) =
          conclude_effect c ctx first (within before queued (callback t x c ctx first) s) now o
            (ap (λ r. r.1) (sym ran ∙ done)) in
        let (called, live, awake, clear, stored) =
          within_succeeded before queued (callback t x c ctx first) s (o, false) answered in
        let kept : after ≡ (within before queued (callback t x c ctx first) s).0 =
          sym (ap (λ r. r.0) (sym ran ∙ done)) ∙ conclude_store c ctx first _ in
        let inbox = ap (λ (q : Store Ident S Ev). q.inbox) (kept ∙ stored) in
        let at_later = resolved_at later more identity resolved in
        let (taken, other) =
          run_idempotent_again t x.inbox (idempotent_command t x c ctx first) ctx there caller
            identity.occurred_at print hash hashed (run there identity) Valid lawful o readable
            (opened s) (callback t x c ctx first (opened s)).0 (opened mid) refl called
            (subst (λ rows. Holds rows mid.inbox) inbox stands)
            (subst (λ n. n <ℤ add64 n x.policy.retention) (sym at_later) keeps)
            (subst (λ n. IsHeld (add64 first.occurred_at x.policy.retention) n) (sym at_later)
              (subst (λ n. IsHeld (add64 n x.policy.retention) later) (sym at_now) held)) in
        let again = callback t x (repeated c print run) there identity in
        (
          λ e.
              execute_allowed (repeated c print run) there later more none none mid identity allowed
                resolved
              ∙ ap (conclude t x (repeated c print run) there identity)
                  (within_same again mid (o, true) armed (ap (λ r. (r.0, r.1.1)) (taken e)))
              ∙ conclude_replay (repeated c print run) there identity _ o,
          λ e.
              execute_allowed (repeated c print run) there later more none none mid identity allowed
                resolved
              ∙ ap (conclude t x (repeated c print run) there identity)
                  (within_refused again mid idempotency_mismatch (ap (λ r. (r.0, r.1.1)) (other e)))
              ∙ conclude_failure (repeated c print run) there identity _ idempotency_mismatch,
        )
