-- ===== src/Memory/Store/Tenancy.antt =====
-- The tenant of the execution context bounds every load and every save.
use dmpf.Prelude.{
  ap, ◌∙◌, ℕ, ◌≡◌, refl, ◌≢◌, subst, String, some, Eq, arith, Option-cases, inl, inr,
}
use dmpf.Ports.Results.{Result, ok, err, panic}
use dmpf.Ports.Context.{Context, ExecutionContext}
use dmpf.Memory.Rows.{RowKey, row_key_eq, Table, scoped_key}
use dmpf.Memory.Store.{Tx, save_as, save, load}
use dmpf.Memory.Store.Saves.{
  row_at, save_as_refused, row_at-save_as, load_key-row_at, load_key-absent,
}

module _ {Ident : Type 0} (ctx : Context) (id : Ident) where
  -- A key is scoped exactly when the carrier resolved a tenant, and then by that tenant.
  scoped_key-tenant :
      (key : RowKey Ident)
      → scoped_key ctx id ≡ ok key
      → (x : ExecutionContext) × (ctx.execution ≡ some x)
        × (x.tenant ≡ some key.tenant)
        × (key.id ≡ id)
  unfolding scoped_key
  scoped_key-tenant key h = elim (Option-cases ctx.execution) [
    | inl gone ↦ absurd (ground arith)
    | inr (x, there) ↦ elim (Option-cases x.tenant) [
      | inl nobody ↦ absurd (ground arith)
      | inr (tenant, resolved) ↦ (x, there, ground arith, ground arith)
    ]
  ]

module _ {Ident S Ev : Type 0} ⦃e : Eq Ident⦄ (t : Table Ident S) (ctx : Context) (id : Ident)
    (tx : Tx Ident S Ev) where
  -- Whatever a save does, and whether it succeeds, no row of a tenant other than the one that the
  -- context resolved changes in any table; with no tenant resolved, no row changes at all.
  pub save_isolation :
      (state : S) (expected : ℕ) (name : String) (other : RowKey Ident)
      → ((x : ExecutionContext) → ctx.execution ≡ some x → x.tenant ≢ some other.tenant)
      → row_at name other (save t ctx id state expected tx).0.tables ≡ row_at name other tx.tables
  unfolding save
  save_isolation state expected name other apart = from (scoped_key ctx id) refl
    where
      from :
          (k : Result (RowKey Ident))
          → scoped_key ctx id ≡ k
          → row_at name other (save t ctx id state expected tx).0.tables
            ≡ row_at name other tx.tables
      from (ok key) h =
          let (x, there, resolved, same) = scoped_key-tenant ctx id key h in
          rw (h, save)
            (row_at-save_as t key state expected tx name other
              (λ p. apart x there (subst (λ k. x.tenant ≡ some k.tenant) p resolved)))
      from (err x) h = rw (h, save) refl
      from panic h = rw (h, save) refl

  -- A load that succeeds returns the row that the tenant of the context holds under the identifier, and
  -- never that of another tenant.
  pub load_isolation :
      (state : S) (version : ℕ)
      → load t ctx id tx ≡ ok (state, version)
      → (x : ExecutionContext) × (tenant : String) × (ctx.execution ≡ some x)
        × (x.tenant ≡ some tenant)
        × (row_at t.name (record { tenant = tenant; id = id }) tx.tables
            ≡ some (record { snapshot = state; version = version }))
  unfolding load
  load_isolation state version h = from (scoped_key ctx id) refl
    where
      from :
          (k : Result (RowKey Ident))
          → scoped_key ctx id ≡ k
          → (x : ExecutionContext) × (tenant : String) × (ctx.execution ≡ some x)
            × (x.tenant ≡ some tenant)
            × (row_at t.name (record { tenant = tenant; id = id }) tx.tables
                ≡ some (record { snapshot = state; version = version }))
      from (ok key) e =
          let (x, there, resolved, same) = scoped_key-tenant ctx id key e in
          elim (Option-cases (row_at t.name key tx.tables)) [
            | inl gone ↦
                let (broken, missed) = load_key-absent t key tx.tables gone in absurd (ground arith)
            | inr (row, held) ↦
                let found = load_key-row_at t key tx.tables row held in
                (x, key.tenant, there, resolved, ground arith)
          ]
      from (err x) e = absurd (ground arith)
      from panic e = absurd (ground arith)

  -- A save that succeeds is the save under the key that the context scopes.
  pub save-save_as :
      (state : S) (expected : ℕ)
      → (save t ctx id state expected tx).1 ≡ ok tt
      → (key : RowKey Ident) × (scoped_key ctx id ≡ ok key)
        × (save t ctx id state expected tx ≡ save_as t key state expected tx)
  unfolding save save_as
  save-save_as state expected h = from (scoped_key ctx id) refl
    where
      from :
          (k : Result (RowKey Ident))
          → scoped_key ctx id ≡ k
          → (key : RowKey Ident) × (scoped_key ctx id ≡ ok key)
            × (save t ctx id state expected tx ≡ save_as t key state expected tx)
      from (ok key) scoped = (key, scoped, rw (scoped, save) refl)
      from (err x) scoped =
          let refused : save t ctx id state expected tx ≡ (tx, err x) = rw (scoped, save) refl in
          absurd (ground arith)
      from panic scoped =
          let halted : save t ctx id state expected tx ≡ (tx, panic) = rw (scoped, save) refl in
          absurd (ground arith)

  pub save-outbox :
      (state : S) (expected : ℕ) → (save t ctx id state expected tx).0.outbox ≡ tx.outbox
  unfolding save save_as
  save-outbox state expected = ground arith

  -- Every row, the inbox, the outbox and the count of writes are the same.
  abbrev pub Unwritten : Tx Ident S Ev → Type 0
  Unwritten q =
      ((name : String) (other : RowKey Ident)
        → row_at name other q.tables ≡ row_at name other tx.tables)
      × (q.inbox ≡ tx.inbox)
      × (q.outbox ≡ tx.outbox)
      × (q.writes ≡ tx.writes)

  pub save_refused :
      (state : S) (expected : ℕ)
      → (save t ctx id state expected tx).1 ≢ ok tt
      → Unwritten (save t ctx id state expected tx).0
  unfolding save
  save_refused state expected h = from (scoped_key ctx id) refl
    where
      from :
          (k : Result (RowKey Ident))
          → scoped_key ctx id ≡ k
          → Unwritten (save t ctx id state expected tx).0
      from (ok key) scoped =
          let done : save t ctx id state expected tx ≡ save_as t key state expected tx =
            rw (scoped, save) refl in
          rw done (save_as_refused t key state expected tx (λ p. h (ap (λ r. r.1) done ∙ p)))
      from (err x) scoped = rw (scoped, save) ((λ name other. refl), refl, refl, refl)
      from panic scoped = rw (scoped, save) ((λ name other. refl), refl, refl, refl)
