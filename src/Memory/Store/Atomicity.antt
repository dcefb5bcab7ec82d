-- ===== src/Memory/Store/Atomicity.antt =====
-- A transaction is all or nothing.
use dmpf.Prelude.{
  ◌+◌, ◌≡◌, refl, ◌≢◌, inl, inr, ◌++◌, [], Option, none, some, Eq, arith, ap, append-nil,
  Option-cases,
}
use dmpf.Ports.Results.{Result, ok, err, panic, Error}
use dmpf.Memory.Store.{Store, Tx, within, open_tx, commit, close}

-- The working copy over which a callback runs.
abbrev pub opened : {Ident S Ev : Type 0} → Store Ident S Ev → Tx Ident S Ev
opened s = record {
  tables = s.tables;
  inbox = s.inbox;
  outbox = [];
  attempts = s.attempts;
  writes = 0;
}

-- The tables, the inbox, the outbox, the attempts and the count of commits.
abbrev pub SameContents : {Ident S Ev : Type 0} → Store Ident S Ev → Store Ident S Ev → Type 0
SameContents q s =
    (q.tables ≡ s.tables)
    × (q.inbox ≡ s.inbox)
    × (q.outbox ≡ s.outbox)
    × (q.attempts ≡ s.attempts)
    × (q.commits ≡ s.commits)

module _ {Ident S Ev A : Type 0} ⦃e : Eq Ident⦄ where
  commit_failed :
      (tx : Tx Ident S Ev) (a : A) (s : Store Ident S Ev)
      → (commit tx a s).1 ≢ ok a
      → SameContents (commit tx a s).0 s
  unfolding commit
  commit_failed tx a s h = elim (Option-cases s.fail_next_commit) [
    | inl clear ↦ absurd (h (ground arith))
    | inr (x, armed) ↦ ground arith
  ]

  close_failed :
      (s : Store Ident S Ev) (r : Tx Ident S Ev × Result A)
      → ((a : A) → (close s r).1 ≢ ok a)
      → SameContents (close s r).0 s
  unfolding close
  close_failed s (tx, ok a) h = commit_failed tx a s (h a)
  close_failed s (tx, err x) h = (refl, refl, refl, refl, refl)
  close_failed s (tx, panic) h = (refl, refl, refl, refl, refl)

  commit_succeeded :
      (tx : Tx Ident S Ev) (b a : A) (s : Store Ident S Ev)
      → (commit tx b s).1 ≡ ok a
      → (b ≡ a)
        × (s.fail_next_commit ≡ none)
        × ((commit tx b s).0 ≡ record {
          tables = tx.tables;
          inbox = tx.inbox;
          outbox = s.outbox ++ tx.outbox;
          attempts = tx.attempts;
          within_calls = s.within_calls;
          commits = s.commits + 1;
          fail_next_commit = none;
        })
  unfolding commit
  commit_succeeded tx b a s h = elim (Option-cases s.fail_next_commit) [
    | inl clear ↦ ground arith
    | inr (x, armed) ↦ absurd (ground arith)
  ]

  close_succeeded :
      (s : Store Ident S Ev) (r : Tx Ident S Ev × Result A) (a : A)
      → (close s r).1 ≡ ok a
      → (r.1 ≡ ok a)
        × (s.fail_next_commit ≡ none)
        × ((close s r).0 ≡ record {
          tables = r.0.tables;
          inbox = r.0.inbox;
          outbox = s.outbox ++ r.0.outbox;
          attempts = r.0.attempts;
          within_calls = s.within_calls;
          commits = s.commits + 1;
          fail_next_commit = none;
        })
  unfolding close
  close_succeeded s (tx, ok b) a h =
      let (same, clear, after) = commit_succeeded tx b a s h in (ap ok same, clear, after)
  close_succeeded s (tx, err x) a h = absurd (ground arith)
  close_succeeded s (tx, panic) a h = absurd (ground arith)

  -- A transaction that returns an error or panics, in its callback, at its commit, or before it opens,
  -- leaves the tables, the inbox, the outbox, the attempts and the count of commits as they were.
  pub within_failed :
      (before queued : Option Error) (fn : Tx Ident S Ev → Tx Ident S Ev × Result A)
      (s : Store Ident S Ev)
      → ((a : A) → (within before queued fn s).1 ≢ ok a)
      → SameContents (within before queued fn s).0 s
  unfolding within open_tx
  within_failed (some x) queued fn s h = (refl, refl, refl, refl, refl)
  within_failed none (some x) fn s h = (refl, refl, refl, refl, refl)
  within_failed none none fn s h =
      close_failed (record s { within_calls = s.within_calls + 1 }) (fn (opened s)) h

  -- A transaction that succeeds installs exactly what its callback left: the tables, the inbox and the
  -- attempts of the working copy, and the entries it enqueued behind those committed before; it counts one
  -- commit. Its context was live before the wait and after it, and no failure of the commit was armed.
  pub within_succeeded :
      (before queued : Option Error) (fn : Tx Ident S Ev → Tx Ident S Ev × Result A)
      (s : Store Ident S Ev) (a : A)
      → (within before queued fn s).1 ≡ ok a
      → let tx = (fn (opened s)).0 in
        ((fn (opened s)).1 ≡ ok a)
        × (before ≡ none)
        × (queued ≡ none)
        × (s.fail_next_commit ≡ none)
        × ((within before queued fn s).0 ≡ record {
          tables = tx.tables;
          inbox = tx.inbox;
          outbox = s.outbox ++ tx.outbox;
          attempts = tx.attempts;
          within_calls = s.within_calls + 1;
          commits = s.commits + 1;
          fail_next_commit = none;
        })
  unfolding within open_tx
  within_succeeded (some x) queued fn s a h = absurd (ground arith)
  within_succeeded none (some x) fn s a h = absurd (ground arith)
  within_succeeded none none fn s a h =
      let (same, clear, after) =
        close_succeeded (record s { within_calls = s.within_calls + 1 }) (fn (opened s)) a h in
      (same, refl, refl, clear, after)

  -- A callback that leaves its working copy as it found it leaves the contents of the store.
  pub within_same :
      (fn : Tx Ident S Ev → Tx Ident S Ev × Result A) (s : Store Ident S Ev) (a : A)
      → s.fail_next_commit ≡ none
      → fn (opened s) ≡ (opened s, ok a)
      → within none none fn s
        ≡ (record s { within_calls = s.within_calls + 1; commits = s.commits + 1 }, ok a)
  unfolding within open_tx close commit
  within_same fn s a clear h = rw h (ground (arith, clear, append-nil s.outbox))

  pub within_refused :
      (fn : Tx Ident S Ev → Tx Ident S Ev × Result A) (s : Store Ident S Ev) (x : Error)
      → fn (opened s) ≡ (opened s, err x)
      → within none none fn s ≡ (record s { within_calls = s.within_calls + 1 }, err x)
  unfolding within open_tx close
  within_refused fn s x h = rw h refl
