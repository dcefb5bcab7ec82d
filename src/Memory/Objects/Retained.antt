-- ===== src/Memory/Objects/Retained.antt =====
-- libs/backend/go/memory/objectstore.go: a version under COMPLIANCE retention, whatever the stores of the
-- bucket are asked.
use dmpf.Prelude.{
  ℕ, suc, ◌<◌, ◌≡◌, ◌≢◌, refl, sym, ap, subst, String, string_eq, ◌==◌, true, false, ◌||◌, List, [],
  ◌∷◌, Option, none, some, arith, Bool-cases, Option-cases, inl, inr,
}
use dmpf.Prelude.Int.{ℤ, ◌<ℤ◌}
use dmpf.Prelude.Maps.{lookup, lookup-insert, lookup-remove}
use dmpf.Ports.Results.{Result, ok, err, panic}
use dmpf.Ports.Objects.{known, Retention, Declaration, PutRequest, ObjectRef}
use dmpf.Memory.ObjectKeys.{Address, address_eq, StoredVersion, Bucket, acquire, locate}
use dmpf.Memory.Objects.{
  admit_hold, admit_purge, admit_put, admit_retention, check_retention, extension_refusal, guarded,
  hold_version, is_retained, purge, purge_version, put, retain, retain_version, set_legal_hold,
  stamp, store_version, version_id, whole_seconds, with_hold, with_retention, with_version,
  write_version,
}
use dmpf.Memory.Objects.Requests.{
  Request, puts, retains, holds, purges, Operation, answer_request, run_operations,
}
use dmpf.Memory.Objects.Bounds.{
  IsBound, check_retention-known, IsBound-extension, IsBound-is_retained, checked_retention,
}

-- The version stands at the address with the content it was stored with, retained until the date or later.
abbrev pub IsKept : Address → StoredVersion → ℤ → Bucket → Type 0
IsKept a original until b =
    (v : StoredVersion) × (lookup a b.versions ≡ some v)
    × (v.body ≡ original.body)
    × (v.info.object_version ≡ original.info.object_version)
    × IsBound until v.info.retention

-- No version that is still to be issued has the address.
abbrev pub IsIssued : Address → Bucket → Type 0
IsIssued a b = (n : ℕ) → b.issued < n → a.version ≢ version_id n

module _ (a : Address) (original : StoredVersion) (until : ℤ) where
  abbrev Holds : Bucket → Type 0
  Holds b = IsIssued a b × IsKept a original until b

  Holds-guarded :
      {A B : Type 0} (r : Result A) (run : A → Bucket → Bucket × Result B) (b : Bucket)
      → Holds b
      → ((x : A) → r ≡ ok x → Holds (run x b).0)
      → Holds (guarded r run b).0
  Holds-guarded (ok x) run b kept each = each x refl
  Holds-guarded (err e) run b kept each = kept
  Holds-guarded panic run b kept each = kept

  Holds-with_version :
      {B : Type 0} (at : Address) (run : StoredVersion → Bucket → Bucket × Result B) (b : Bucket)
      → Holds b
      → ((v : StoredVersion) → lookup at b.versions ≡ some v → Holds (run v b).0)
      → Holds (with_version at run b).0
  Holds-with_version at run b kept each = elim (Option-cases (lookup at b.versions)) [
    | inl absent ↦ rw (absent, with_version) kept
    | inr (v, there) ↦ rw (there, with_version) (each v there)
  ]

  Holds-versioned :
      {B : Type 0} (r : Result Address) (run : Address → StoredVersion → Bucket → Bucket × Result B)
      (b : Bucket)
      → Holds b
      → ((at : Address) (v : StoredVersion)
          → r ≡ ok at
          → lookup at b.versions ≡ some v
          → Holds (run at v b).0)
      → Holds (guarded r (λ at. with_version at (run at)) b).0
  Holds-versioned r run b kept each =
      Holds-guarded r (λ at. with_version at (run at)) b kept
        (λ at made. Holds-with_version at (run at) b kept (λ v there. each at v made there))

  -- A version written over itself, its content kept and its bound too.
  Holds-write_version :
      (at : Address) (v w : StoredVersion) (b : Bucket)
      → lookup at b.versions ≡ some v
      → w.body ≡ v.body
      → w.info.object_version ≡ v.info.object_version
      → (IsBound until v.info.retention → IsBound until w.info.retention)
      → Holds b
      → Holds (write_version at w b)
  Holds-write_version at v w b there body version bound
        (issued, (u, found, b_same, v_same, u_bound)) =
      elim (Bool-cases (at == a)) [
        | inl same ↦
            let here : at ≡ a = ground (arith, address_eq.equals_iff at a, same) in
            let one : u ≡ v = ground (arith, there, found, here) in
            (
              issued,
              (
                w,
                ground (arith, lookup-insert at a w b.versions, same),
                ground (arith, body, b_same, one),
                ground (arith, version, v_same, one),
                bound (subst (λ (x : StoredVersion). IsBound until x.info.retention) one u_bound),
              ),
            )
        | inr other ↦ (
          issued,
          (
            u,
            ground (arith, lookup-insert at a w b.versions, other, found),
            b_same,
            v_same,
            u_bound,
          ),
        )
      ]

  Holds-store_version :
      (decl : Declaration) (req : PutRequest) (digest : String) (now : ℤ)
      (placed : String × Option Retention) (b : Bucket)
      → Holds b
      → Holds (store_version decl req digest now placed b).0
  Holds-store_version decl req digest now (key, retention) b
        (issued, (u, found, b_same, v_same, bound)) =
      let fresh : Address = record { physical_key = key; version = version_id (suc b.issued) } in
      let v = stamp decl req digest now (suc b.issued) retention in
      let apart : (fresh == a) ≡ false = elim (Bool-cases (fresh == a)) [
        | inl met ↦
            let here : fresh ≡ a = ground (arith, address_eq.equals_iff fresh a, met) in
            absurd (issued (suc b.issued) (omega arith) (ap (λ x. x.version) (sym here)))
        | inr other ↦ other
      ] in
      (
        (λ n later. issued n (omega (arith, later))),
        (
          u,
          ground (arith, lookup-insert fresh a v b.versions, apart, found),
          b_same,
          v_same,
          bound,
        ),
      )

  Holds-purge_version :
      (now : ℤ) (ref : ObjectRef) (at : Address) (v : StoredVersion) (b : Bucket)
      → lookup at b.versions ≡ some v
      → now <ℤ until
      → Holds b
      → Holds (purge_version now ref at v b).0
  Holds-purge_version now ref at v b there early (issued, (u, found, b_same, v_same, bound)) =
      elim (Bool-cases (v.info.legal_hold || is_retained now v.info.retention)) [
        | inl locked ↦ rw (locked, purge_version) (issued, (u, found, b_same, v_same, bound))
        | inr free ↦ elim (Bool-cases (at == a)) [
          | inl met ↦
              let here : at ≡ a = ground (arith, address_eq.equals_iff at a, met) in
              let one : u ≡ v = ground (arith, there, found, here) in
              absurd (
                ground (
                  arith,
                  free,
                  IsBound-is_retained now until v.info.retention early
                      (subst (λ (x : StoredVersion). IsBound until x.info.retention) one bound),
                ))
          | inr other ↦
              rw (free, purge_version)
                (
                  issued,
                  (
                    u,
                    ground (arith, lookup-remove at a b.versions, other, found),
                    b_same,
                    v_same,
                    bound,
                  ),
                )
        ]
      ]

  Holds-retain_version :
      (now : ℤ) (to : Retention) (at : Address) (v : StoredVersion) (b : Bucket)
      → lookup at b.versions ≡ some v
      → now <ℤ until
      → known to.mode ≡ true
      → Holds b
      → Holds (retain_version now to at v b).0
  Holds-retain_version now to at v b there early is_known kept =
      elim (Option-cases (extension_refusal now v.info.retention to)) [
        | inr (e, refused) ↦ rw (refused, retain_version) kept
        | inl free ↦
            rw (free, retain_version)
              (Holds-write_version at v (with_retention to v) b there refl refl
                (bounded v.info.retention free) kept)
      ]
    where
      bounded :
          (r : Option Retention)
          → extension_refusal now r to ≡ none
          → IsBound until r
          → IsBound until (some to)
      bounded none free bound = absurd bound
      bounded (some r) free bound = IsBound-extension now until r to early bound is_known free

module _ (digest : List ℕ → String) where
  Holds-answer_request :
      (a : Address) (original : StoredVersion) (until : ℤ) (op : Operation) (r : Request)
      (b : Bucket)
      → op.now <ℤ until
      → Holds a original until b
      → Holds a original until (answer_request digest op r b)
  unfolding put retain set_legal_hold purge
  Holds-answer_request a original until op (puts req) b early kept =
      Holds-guarded a original until
        (admit_put digest op.declaration op.context op.locked op.now req)
        (store_version op.declaration req (digest req.body) op.now) b kept
        (λ placed _.
          Holds-store_version a original until op.declaration req (digest req.body) op.now placed b
            kept)
  Holds-answer_request a original until op (retains ref to) b early kept =
      let date = whole_seconds to in
      Holds-versioned a original until
        (admit_retention op.declaration op.context op.locked op.now ref date)
        (retain_version op.now date) b kept
        (λ at v made there.
          Holds-retain_version a original until op.now date at v b there early
            (check_retention-known op.declaration op.now date (
              checked_retention (locate op.declaration op.context ref)
                (check_retention op.declaration op.now date) (acquire op.locked) at made))
            kept)
  Holds-answer_request a original until op (holds ref hold) b early kept =
      Holds-versioned a original until (admit_hold op.declaration op.context op.locked ref hold)
        (hold_version op.now ref hold) b kept
        (λ at v _ there.
          Holds-write_version a original until at v (with_hold hold.on v) b there refl refl
            (λ bound. bound) kept)
  Holds-answer_request a original until op (purges ref) b early kept =
      Holds-versioned a original until (admit_purge op.declaration op.context op.locked ref)
        (purge_version op.now ref) b kept
        (λ at v _ there. Holds-purge_version a original until op.now ref at v b there early kept)

abbrev pub AllBefore : ℤ → List Operation → Type 0
AllBefore until [] = Unit
AllBefore until (op ∷ ops) = (op.now <ℤ until) × AllBefore until ops

module _ (digest : List ℕ → String) where
  -- A version that a bucket holds under COMPLIANCE retention keeps its body and what it was stored as, and
  -- stays under COMPLIANCE retention until the same date or a later one, through any sequence of puts,
  -- retentions, legal holds and purges of any stores and contexts, while the bucket's clock reads an
  -- instant before that date.
  pub run_operations-IsKept :
      (a : Address) (original : StoredVersion) (until : ℤ) (ops : List Operation) (b : Bucket)
      → AllBefore until ops
      → IsIssued a b
      → IsKept a original until b
      → IsKept a original until (run_operations digest ops b)
  unfolding run_operations
  run_operations-IsKept a original until ops b early issued kept = from ops b early (issued, kept)
    where
      from :
          (ops : List Operation) (b : Bucket)
          → AllBefore until ops
          → Holds a original until b
          → IsKept a original until (run_operations digest ops b)
      from [] b early kept = kept.1
      from (op ∷ ops) b early kept =
          from ops (answer_request digest op op.request b) early.1
            (Holds-answer_request digest a original until op op.request b early.0 kept)
