-- ===== src/Memory/Inbox/Replays.antt =====
-- The inbox across two receptions of one key: a completed effect is not run again.
use dmpf.Prelude.{◌≡◌, ◌≢◌, refl, String, true, false, arith, some, ap, ◌⊎◌, sym, ◌∙◌}
use text.Mathlib.TextEquality.{eq_iff}
use dmpf.Prelude.Int.{ℤ, pos, ◌≤ℤ◌, ◌<ℤ◌, eq_of_parts}
use dmpf.Prelude.Maps.{lookup, lookup-insert_self}
use dmpf.Ports.Results.{Result, ok, err, panic, already_completed}
use dmpf.Ports.Context.{Context}
use dmpf.Ports.Inbox.{
  processed, rejected, Receipt, Completion, first, was_processed, was_rejected, collision,
}
use dmpf.Memory.Inbox.{
  InboxKey, InboxRow, InboxRows, TxInbox, Pending, inbox_key_eq, filed_id, receive, classify,
  register, complete, fresh, expired, completed_row,
}

abbrev pub pending_of : InboxKey → Receipt → Pending
pending_of key r = record {
  key = key;
  hash = r.payload_hash;
  expires_at = r.expires_at;
  completed = false;
}

receive_first :
    (key : InboxKey) (r : Receipt) (rows : InboxRows) (p : Pending)
    → receive key r rows ≡ first p
    → p ≡ pending_of key r
unfolding receive classify
receive_first key r rows p h = ground arith

-- Both guards of a registration, on the consumers alone.
abbrev pub IsServed : TxInbox → Receipt → Type 0
IsServed i r = (i.consumer ≢ "") × (r.consumer ≡ i.consumer)

pub register-receive :
    (i : TxInbox) (ctx : Context) (r : Receipt) (rows : InboxRows) (id : String)
    → IsServed i r
    → filed_id i ctx r ≡ ok id
    → register i ctx r rows ≡ ok (receive (record { consumer = i.consumer; id = id }) r rows)
unfolding register
register-receive i ctx r rows id (named, same) filed =
    rw filed
      (ground (arith, eq_iff i.consumer "", eq_iff r.consumer "", eq_iff r.consumer i.consumer))

-- What a registration that was received first tells about its pending.
pub register_first :
    (i : TxInbox) (ctx : Context) (r : Receipt) (rows : InboxRows) (p : Pending)
    → register i ctx r rows ≡ ok (first p)
    → (id : String) × (filed_id i ctx r ≡ ok id)
      × (p ≡ pending_of (record { consumer = i.consumer; id = id }) r)
      × IsServed i r
unfolding register
register_first i ctx r rows p h = from (filed_id i ctx r) refl
  where
    from :
        (k : Result String)
        → filed_id i ctx r ≡ k
        → (id : String) × (filed_id i ctx r ≡ ok id)
          × (p ≡ pending_of (record { consumer = i.consumer; id = id }) r)
          × IsServed i r
    from (ok id) filed =
        let served : IsServed i r =
          ground
            (arith, eq_iff i.consumer "", eq_iff r.consumer "", eq_iff r.consumer i.consumer) in
        let answered = register-receive i ctx r rows id served filed in
        (id, filed, receive_first _ r rows p (ground (arith, answered)), served)
    from (err x) filed = absurd (ground arith)
    from panic filed = absurd (ground arith)

receive_held :
    (key : InboxKey) (r : Receipt) (rows : InboxRows) (row : InboxRow)
    → lookup key rows ≡ some row
    → receive key r rows ≡ classify key r row
unfolding receive
receive_held key r rows row h = ground (arith, h)

pub complete_ok :
    (p q : Pending) (c : Completion) (rows : InboxRows)
    → (complete p c rows).1 ≡ ok q
    → (lookup p.key (complete p c rows).0 ≡ some (completed_row p c))
      × (q.completed ≡ true)
      × ((c.status ≡ processed) ⊎ (c.status ≡ rejected))
unfolding complete
complete_ok p q c rows h = ground (arith, lookup-insert_self p.key (completed_row p c) rows)

-- The time at which a completed row with this expiry is still held; an expiry of 0 is none.
abbrev pub IsHeld : ℤ → ℤ → Type 0
IsHeld expires_at at = (expires_at ≡ pos 0) ⊎ (at <ℤ expires_at)

-- What a later receipt is answered from, once the pending of an earlier one is completed.
again-classify :
    (i : TxInbox) (ctx there : Context) (r again : Receipt) (rows staged : InboxRows)
    (p q : Pending) (c : Completion)
    → register i ctx r rows ≡ ok (first p)
    → (complete p c staged).1 ≡ ok q
    → again.consumer ≡ r.consumer
    → filed_id i there again ≡ filed_id i ctx r
    → (register i there again (complete p c staged).0
        ≡ ok (classify p.key again (completed_row p c)))
      × (p.hash ≡ r.payload_hash)
      × (p.expires_at ≡ r.expires_at)
again-classify i ctx there r again rows staged p q c received done same_consumer same_id =
    let (id, filed, opened, (named, same)) = register_first i ctx r rows p received in
    let (there_now, closed, terminal) = complete_ok p q c staged done in
    let key : InboxKey = record { consumer = i.consumer; id = id } in
    let answered =
      register-receive i there again (complete p c staged).0 id (named, same_consumer ∙ same)
        (same_id ∙ filed) in
    let there = receive_held p.key again (complete p c staged).0 (completed_row p c) there_now in
    (
      answered
          ∙ ap (λ k. ok (receive k again (complete p c staged).0)) (sym (ap (λ x. x.key) opened))
          ∙ ap ok there,
      ap (λ x. x.hash) opened,
      ap (λ x. x.expires_at) opened,
    )

-- A receipt that was received first and completed, over whatever rows the work in between left, is never
-- run again while its row is held: a receipt of the same
-- consumer and identifier is answered with the stored outcome, under the branch that the
-- completion chose, where its payload is the same, and as a collision where it differs.
pub register-complete :
    (i : TxInbox) (ctx there : Context) (r again : Receipt) (rows staged : InboxRows)
    (p q : Pending) (c : Completion)
    → register i ctx r rows ≡ ok (first p)
    → (complete p c staged).1 ≡ ok q
    → again.consumer ≡ r.consumer
    → filed_id i there again ≡ filed_id i ctx r
    → IsHeld r.expires_at again.received_at
    → let answer = register i there again (complete p c staged).0 in
      (again.payload_hash ≡ r.payload_hash
        → c.status ≡ processed
        → answer ≡ ok (was_processed c.outcome))
      × (again.payload_hash ≡ r.payload_hash
          → c.status ≡ rejected
          → answer ≡ ok (was_rejected c.outcome))
      × (again.payload_hash ≢ r.payload_hash → answer ≡ ok collision)
unfolding classify expired
register-complete i ctx there r again rows staged p q c received done same_consumer same_id held =
    let (answered, hash, expiry) =
      again-classify i ctx there r again rows staged p q c received done same_consumer same_id in
    rw answered (ground (arith, eq_iff p.hash again.payload_hash))

-- Once the row of a completed receipt has expired, the same consumer and identifier are a first
-- reception again, under the hash and the expiry of the later receipt.
pub register_expired :
    (i : TxInbox) (ctx there : Context) (r again : Receipt) (rows staged : InboxRows)
    (p q : Pending) (c : Completion)
    → register i ctx r rows ≡ ok (first p)
    → (complete p c staged).1 ≡ ok q
    → again.consumer ≡ r.consumer
    → filed_id i there again ≡ filed_id i ctx r
    → r.expires_at ≢ pos 0
    → r.expires_at ≤ℤ again.received_at
    → register i there again (complete p c staged).0 ≡ ok (fresh p.key again)
unfolding classify expired
register_expired i ctx there r again rows staged p q c received done same_consumer same_id finite
      late =
    let (answered, hash, expiry) =
      again-classify i ctx there r again rows staged p q c received done same_consumer same_id in
    rw answered (ground (arith, eq_of_parts r.expires_at (pos 0)))

-- A pending completes once: a second completion is refused and changes no row.
pub complete_twice :
    (p q : Pending) (c again : Completion) (rows : InboxRows)
    → (complete p c rows).1 ≡ ok q
    → complete q again (complete p c rows).0 ≡ ((complete p c rows).0, err already_completed)
unfolding complete
complete_twice p q c again rows done = ground arith
