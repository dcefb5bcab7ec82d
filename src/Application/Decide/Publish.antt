-- ===== src/Application/Decide/Publish.antt =====
-- The save and the events of a decision that was accepted.
use dmpf.Prelude.{
  ℕ, ◌+◌, ◌%◌, ◌≤◌, ◌<◌, ◌≡◌, refl, ◌≢◌, String, List, [], ◌∷◌, ◌++◌, Eq, arith, length, ltb, ap,
  ◌∙◌, append_assoc, append-nil, inl, inr, Option-cases, Bool-cases,
}
use dmpf.Prelude.Word.{full_range}
use dmpf.Domain.{Accepted}
use dmpf.Ports.Results.{Result, ok, err, panic}
use dmpf.Ports.Context.{Context}
use dmpf.Ports.Transaction.{MessageContext, OutboxEntry}
use dmpf.Memory.Rows.{row_key_eq, Table}
use dmpf.Memory.Store.{Tx, ports_of, save_as, save, load}
use dmpf.Memory.Store as Memory
use dmpf.Application.Decide.{
  Outcome, accept, Origin, Identity, entry_of, enqueue_each, enqueue, publish, declared_rejection,
}

-- An answer that is neither an acceptance nor a panic.
abbrev pub IsRefusal : {R : Type 0} → Result (Outcome R) → Type 0
IsRefusal {R} r = ((response : R) → r ≢ ok (accept response)) × (r ≢ panic)

module _ {Ident S Ev : Type 0} ⦃e : Eq Ident⦄ (t : Table Ident S) (ctx : Context)
    (attached : MessageContext) (identity : Identity) (origin : Origin) where
  -- The entries of the events, each under the identifier that stands at its place.
  abbrev pub entries_of : ℕ → List Ev → List String → List (OutboxEntry Ev)
  entries_of written [] ids = []
  entries_of written (event ∷ events) [] = []
  entries_of written (event ∷ events) (id ∷ ids) =
      entry_of attached identity origin written event id ∷ entries_of written events ids

  enqueue_each_lem :
      (written : ℕ) (events : List Ev) (ids : List String) (tx : Tx Ident S Ev)
      → length events ≤ length ids
      → enqueue_each (ports_of t ctx) attached identity origin written events ids tx ≡ (
        record tx {
          outbox = tx.outbox ++ entries_of written events ids;
          writes = tx.writes + length events;
        },
        ok tt,
      )
  unfolding enqueue_each Memory.enqueue
  enqueue_each_lem written [] ids tx h = ground (arith, append-nil tx.outbox)
  enqueue_each_lem written (event ∷ events) [] tx h = absurd (ground arith)
  enqueue_each_lem written (event ∷ events) (id ∷ ids) tx h =
      let entry : OutboxEntry Ev = entry_of attached identity origin written event id in
      let next : Tx Ident S Ev = record tx {
        outbox = tx.outbox ++ entry ∷ [];
        writes = tx.writes + 1;
      } in
      enqueue_each_lem written events ids next (ground arith)
      ∙ ground (arith, append_assoc tx.outbox (entry ∷ []) (entries_of written events ids))

  enqueue_ok :
      (written : ℕ) (events : List Ev) (tx : Tx Ident S Ev)
      → length events ≤ length identity.message_ids
      → enqueue (ports_of t ctx) attached identity origin written events tx ≡ (
        record tx {
          outbox = tx.outbox ++ entries_of written events identity.message_ids;
          writes = tx.writes + length events;
        },
        ok tt,
      )
  unfolding enqueue
  enqueue_ok written events tx h =
      ground (arith, enqueue_each_lem written events identity.message_ids tx h)

  enqueue_short :
      (written : ℕ) (events : List Ev) (tx : Tx Ident S Ev)
      → length identity.message_ids < length events
      → enqueue (ports_of t ctx) attached identity origin written events tx ≡ (tx, panic)
  unfolding enqueue
  enqueue_short written events tx h = ground arith

  module _ {A R : Type 0} (snapshot : A → S) where
    -- What a decision that was accepted and saved leaves, its events enqueued.
    abbrev pub published : Accepted Ev R → ℕ → Tx Ident S Ev → Tx Ident S Ev
    published acc stored tx = record tx {
      outbox = tx.outbox ++ entries_of ((stored + 1) % full_range) acc.events identity.message_ids;
      writes = tx.writes + length acc.events;
    }

    publish_ok :
        (acc : Accepted Ev R) (stored : ℕ) (tx : Tx Ident S Ev)
        → length acc.events ≤ length identity.message_ids
        → publish (ports_of t ctx) attached identity origin snapshot acc stored (tx, ok tt)
          ≡ (published acc stored tx, ok (accept acc.response))
    unfolding publish
    publish_ok acc stored tx h = rw (enqueue_ok ((stored + 1) % full_range) acc.events tx h) refl

    publish_short :
        (acc : Accepted Ev R) (stored : ℕ) (tx : Tx Ident S Ev)
        → length identity.message_ids < length acc.events
        → publish (ports_of t ctx) attached identity origin snapshot acc stored (tx, ok tt)
          ≡ (tx, panic)
    unfolding publish
    publish_short acc stored tx h =
        rw (enqueue_short ((stored + 1) % full_range) acc.events tx h) refl

    pub publish-accept :
        (acc : Accepted Ev R) (stored : ℕ) (saved : Tx Ident S Ev × Result (Unit {0}))
        (after : Tx Ident S Ev) (response : R)
        → publish (ports_of t ctx) attached identity origin snapshot acc stored saved
          ≡ (after, ok (accept response))
        → (saved.1 ≡ ok tt)
          × (length acc.events ≤ length identity.message_ids)
          × (acc.response ≡ response)
          × (after ≡ published acc stored saved.0)
    unfolding publish
    publish-accept acc stored (tx, ok done) after response h =
        elim (Bool-cases (ltb (length identity.message_ids) (length acc.events))) [
          | inl short ↦
              let halted = publish_short acc stored tx (ground arith) in absurd (ground arith)
          | inr enough ↦
              let sent = publish_ok acc stored tx (ground arith) in
              (refl, ground arith, ground arith, ground arith)
        ]
    publish-accept acc stored (tx, err x) after response h =
        elim (Option-cases (declared_rejection x)) [
          | inl none_declared ↦ absurd (ground arith)
          | inr (r, declared) ↦ absurd (ground arith)
        ]
    publish-accept acc stored (tx, panic) after response h = absurd (ground arith)

    pub publish_refused :
        (acc : Accepted Ev R) (stored : ℕ) (saved : Tx Ident S Ev × Result (Unit {0}))
        → let q = publish (ports_of t ctx) attached identity origin snapshot acc stored saved in
          IsRefusal q.1 → (saved.1 ≢ ok tt) × (q.0 ≡ saved.0)
    unfolding publish
    publish_refused acc stored (tx, ok done) (unaccepted, returned) =
        elim (Bool-cases (ltb (length identity.message_ids) (length acc.events))) [
          | inl short ↦
              absurd (returned (ap (λ r. r.1) (publish_short acc stored tx (ground arith))))
          | inr enough ↦
              absurd
                (unaccepted acc.response (ap (λ r. r.1) (publish_ok acc stored tx (ground arith))))
        ]
    publish_refused acc stored (tx, err x) h = elim (Option-cases (declared_rejection x)) [
      | inl none_declared ↦ ((λ p. absurd (ground arith)), ground arith)
      | inr (given, declared) ↦ ((λ p. absurd (ground arith)), ground arith)
    ]
    publish_refused acc stored (tx, panic) (unaccepted, returned) = absurd (returned refl)
