-- ===== src/Application/Decide/Writes.antt =====
-- What `Decide` leaves in a transaction of the store.
use dmpf.Prelude.{ℕ, ◌+◌, ◌%◌, ◌≤◌, ◌≡◌, refl, ◌++◌, some, Eq, arith, length, ap, sym, ◌∙◌, subst}
use dmpf.Prelude.Word.{full_range}
use dmpf.Domain.{Accepted, Decision, accepted, rejected}
use dmpf.Ports.Results.{Result, ok, err, panic}
use dmpf.Ports.Context.{Context}
use dmpf.Ports.Transaction.{MessageContext}
use dmpf.Memory.Rows.{RowKey, row_key_eq, Table, scoped_key}
use dmpf.Memory.Store.{Tx, ports_of, save, load}
use dmpf.Memory.Store.Saves.{row_at, version_after}
use dmpf.Memory.Store.Tenancy.{save-save_as, save-outbox, Unwritten, save_refused}
use dmpf.Application.Decide.{accept, Origin, Identity, settle, decide}
use dmpf.Application.Decide.Publish.{
  IsRefusal, entries_of, published, publish-accept, publish_refused,
}

module _ {Ident S Ev : Type 0} ⦃e : Eq Ident⦄ (t : Table Ident S) (ctx : Context)
    (attached : MessageContext) (identity : Identity) (origin : Origin) {A R : Type 0}
    (snapshot : A → S) where
  settle-accept :
      (id : Ident) (stored : ℕ) (d : A × Decision Ev R) (tx after : Tx Ident S Ev) (response : R)
      → settle (ports_of t ctx) attached identity origin snapshot id stored d tx
        ≡ (after, ok (accept response))
      → (acc : Accepted Ev R) × (d.1 ≡ accepted acc)
        × (acc.response ≡ response)
        × (length acc.events ≤ length identity.message_ids)
        × ((save t ctx id (snapshot d.0) stored tx).1 ≡ ok tt)
        × (after
            ≡ published t ctx attached identity origin snapshot acc stored
                (save t ctx id (snapshot d.0) stored tx).0)
  unfolding settle
  settle-accept id stored (next, rejected r) tx after response h = absurd (ground arith)
  settle-accept id stored (next, accepted acc) tx after response h =
      let (saved, enough, same, left) =
        publish-accept t ctx attached identity origin snapshot acc stored
          (save t ctx id (snapshot next) stored tx) after response h in
      (acc, refl, same, enough, saved, left)

  decide_found :
      (id : Ident) (load_as : Ident → Result (S × ℕ) → Result (A × ℕ))
      (choose : A → A × Decision Ev R) (tx : Tx Ident S Ev) (aggregate : A) (stored : ℕ)
      → load_as id (load t ctx id tx) ≡ ok (aggregate, stored)
      → decide (ports_of t ctx) attached identity origin snapshot id load_as choose tx
        ≡ settle (ports_of t ctx) attached identity origin snapshot id stored (choose aggregate) tx
  unfolding decide
  decide_found id load_as choose tx aggregate stored found = rw found refl

  -- The decision behind an acceptance, and what it wrote.
  abbrev pub Written :
      Ident
      → (Ident → Result (S × ℕ) → Result (A × ℕ))
      → (A → A × Decision Ev R)
      → Tx Ident S Ev
      → Tx Ident S Ev
      → R
      → Type 0
  Written id load_as choose tx after response =
      (aggregate : A) × (stored : ℕ) × (acc : Accepted Ev R) × (key : RowKey Ident) × (load_as id
          (load t ctx id tx)
        ≡ ok (aggregate, stored))
      × ((choose aggregate).1 ≡ accepted acc)
      × (acc.response ≡ response)
      × (length acc.events ≤ length identity.message_ids)
      × (scoped_key ctx id ≡ ok key)
      × (row_at t.name key after.tables
          ≡ some (record {
            snapshot = snapshot (choose aggregate).0;
            version = (stored + 1) % full_range;
          }))
      × (after.outbox
          ≡ tx.outbox
            ++ entries_of t ctx attached identity origin ((stored + 1) % full_range) acc.events
                identity.message_ids)

  -- A use case that answers with an acceptance decided over the aggregate that its loader made of the stored
  -- state, saved what the decision left under the version after the loaded one, and put the events of
  -- the decision, in order, each under its own identifier and with that version, behind the entries
  -- that the transaction had; there were identifiers for all of them.
  pub decide-accept :
      (id : Ident) (load_as : Ident → Result (S × ℕ) → Result (A × ℕ))
      (choose : A → A × Decision Ev R) (tx after : Tx Ident S Ev) (response : R)
      → decide (ports_of t ctx) attached identity origin snapshot id load_as choose tx
        ≡ (after, ok (accept response))
      → Written id load_as choose tx after response
  unfolding decide
  decide-accept id load_as choose tx after response h = from (load_as id (load t ctx id tx)) refl
    where
      from :
          (k : Result (A × ℕ))
          → load_as id (load t ctx id tx) ≡ k
          → Written id load_as choose tx after response
      from (ok (aggregate, stored)) found =
          let (acc, decided, same, enough, saved, left) =
            settle-accept id stored (choose aggregate) tx after response
              (sym (decide_found id load_as choose tx aggregate stored found) ∙ h) in
          let (key, scoped, done) =
            save-save_as t ctx id tx (snapshot (choose aggregate).0) stored saved in
          let there =
            version_after t key (snapshot (choose aggregate).0) stored tx
              (sym (ap (λ r. r.1) done) ∙ saved) in
          (
            aggregate,
            stored,
            acc,
            key,
            found,
            decided,
            same,
            enough,
            scoped,
            ap (λ a. row_at t.name key a.tables) left
                ∙ ap (λ r. row_at t.name key r.0.tables) done
                ∙ there,
            ap (λ a. a.outbox) left
                ∙ ap
                    (λ o.
                      o
                      ++ entries_of t ctx attached identity origin ((stored + 1) % full_range)
                          acc.events identity.message_ids)
                    (save-outbox t ctx id tx (snapshot (choose aggregate).0) stored),
          )
      from (err x) found = absurd (ground arith)
      from panic found = absurd (ground arith)

  settle_refused :
      (id : Ident) (stored : ℕ) (d : A × Decision Ev R) (tx : Tx Ident S Ev)
      → let q = settle (ports_of t ctx) attached identity origin snapshot id stored d tx in
        IsRefusal q.1 → Unwritten t ctx id tx q.0
  unfolding settle
  settle_refused id stored (next, rejected r) tx h = ((λ name other. refl), refl, refl, refl)
  settle_refused id stored (next, accepted acc) tx h =
      let saved = save t ctx id (snapshot next) stored tx in
      let (refused, left) =
        publish_refused t ctx attached identity origin snapshot acc stored saved h in
      rw left (save_refused t ctx id tx (snapshot next) stored refused)

  -- A use case that answers with a refusal, of its decision or of a unique constraint, or that fails
  -- with an error leaves every row, the inbox and the outbox of its transaction as they were.
  pub decide_refused :
      (id : Ident) (load_as : Ident → Result (S × ℕ) → Result (A × ℕ))
      (choose : A → A × Decision Ev R) (tx : Tx Ident S Ev)
      → let q = decide (ports_of t ctx) attached identity origin snapshot id load_as choose tx in
        IsRefusal q.1 → Unwritten t ctx id tx q.0
  unfolding decide
  decide_refused id load_as choose tx h = from (load_as id (load t ctx id tx)) refl
    where
      from :
          (k : Result (A × ℕ))
          → load_as id (load t ctx id tx) ≡ k
          → Unwritten t ctx id tx
              (decide (ports_of t ctx) attached identity origin snapshot id load_as choose tx).0
      from (ok (aggregate, stored)) found =
          let same = decide_found id load_as choose tx aggregate stored found in
          rw same
            (settle_refused id stored (choose aggregate) tx (subst (λ q. IsRefusal q.1) same h))
      from (err x) found = rw (found, decide) ((λ name other. refl), refl, refl, refl)
      from panic found = rw (found, decide) ((λ name other. refl), refl, refl, refl)
