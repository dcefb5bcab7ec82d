-- ===== src/Memory/Objects/Isolation.antt =====
-- libs/backend/go/memory/objectstore.go: the versions of a tenant, whatever the other contexts do.
use dmpf.Prelude.{
  ℕ, suc, ◌≡◌, ◌≢◌, refl, ap, subst, ◌∙◌, String, string_eq, ◌==◌, Bool, true, false, ◌&&◌, ◌||◌,
  not, List, [], ◌∷◌, Option, if◌then◌else◌, arith, Bool-cases, Option-cases, inl, inr,
}
use dmpf.Prelude.Int.{ℤ}
use dmpf.Prelude.Maps.{lookup, lookup-insert, lookup-remove}
use dmpf.Ports.Results.{
  Result, ok, err, panic, ◌>>=◌, ◌>>◌, Error, integrity, legal_hold_reason_required,
}
use dmpf.Ports.Context.{Context}
use dmpf.Ports.Objects.{Declaration, ObjectRef, PutRequest, Retention, validate_key}
use dmpf.Memory.ObjectKeys.{
  Address, address_eq, StoredVersion, Bucket, acquire, contains_slash, tenant_key, physical, locate,
}
use dmpf.Memory.Objects.{
  admit_put, check_retention, dated, extension_refusal, guarded, hold_version, is_retained, purge,
  purge_version, put, retain, retain_version, set_legal_hold, stamp, store_version, version_id,
  whole_seconds, with_hold, with_retention, with_version,
}
use dmpf.Memory.Objects.Requests.{
  Request, puts, retains, holds, purges, Operation, answer_request, run_operations, >>=_inv,
}
use dmpf.Memory.Objects.Prefixes.{IsForeign, physical_apart, located_apart}

module _ (a : Address) where
  abbrev IsUnmoved : Bucket → Bucket → Type 0
  IsUnmoved before after = lookup a after.versions ≡ lookup a before.versions

  IsUnmoved-guarded :
      {A B : Type 0} (r : Result A) (run : A → Bucket → Bucket × Result B) (b : Bucket)
      → ((x : A) → r ≡ ok x → IsUnmoved b (run x b).0)
      → IsUnmoved b (guarded r run b).0
  IsUnmoved-guarded (ok x) run b each = each x refl
  IsUnmoved-guarded (err e) run b each = refl
  IsUnmoved-guarded panic run b each = refl

  IsUnmoved-versioned :
      {B : Type 0} (located : Result Address) (go : Address → Result Address)
      (run : Address → StoredVersion → Bucket → Bucket × Result B) (b : Bucket)
      → ((x at : Address) → go x ≡ ok at → x ≡ at)
      → ((at : Address) → located ≡ ok at → (at == a) ≡ false)
      → ((at : Address) (v : StoredVersion) → (at == a) ≡ false → IsUnmoved b (run at v b).0)
      → IsUnmoved b (guarded (located >>= go) (λ at. with_version at (run at)) b).0
  IsUnmoved-versioned located go run b same apart each =
      IsUnmoved-guarded (located >>= go) (λ at. with_version at (run at)) b
        (λ at made.
          let (x, found, gone) = >>=_inv located go at made in
          let one = same x at gone in
          elim (Option-cases (lookup at b.versions)) [
            | inl absent ↦ rw (absent, with_version) refl
            | inr (v, there) ↦
                rw (there, with_version) (each at v (apart at (found ∙ ap (λ z. ok z) one)))
          ])

passed_on : (m : Result (Unit {0})) (x at : Address) → (m >> ok x) ≡ ok at → x ≡ at
passed_on m x at made = let (_, _, built) = >>=_inv m (λ _. ok x) at made in ground (arith, built)

passed_hold :
    (refused : Bool) (e : Error) (m : Result (Unit {0})) (x at : Address)
    → (if refused then err e else (m >> ok x)) ≡ ok at
    → x ≡ at
passed_hold true e m x at made = absurd (ground (arith, made))
passed_hold false e m x at made = passed_on m x at made

IsUnmoved-retain_version :
    (a : Address) (now : ℤ) (to : Retention) (at : Address) (v : StoredVersion) (b : Bucket)
    → (at == a) ≡ false
    → IsUnmoved a b (retain_version now to at v b).0
IsUnmoved-retain_version a now to at v b apart =
    elim (Option-cases (extension_refusal now v.info.retention to)) [
      | inr (e, refused) ↦ rw (refused, retain_version) refl
      | inl free ↦
          rw (free, retain_version)
            (ground (arith, lookup-insert at a (with_retention to v) b.versions, apart))
    ]

IsUnmoved-purge_version :
    (a : Address) (now : ℤ) (ref : ObjectRef) (at : Address) (v : StoredVersion) (b : Bucket)
    → (at == a) ≡ false
    → IsUnmoved a b (purge_version now ref at v b).0
IsUnmoved-purge_version a now ref at v b apart =
    elim (Bool-cases (v.info.legal_hold || is_retained now v.info.retention)) [
      | inl held ↦ rw (held, purge_version) refl
      | inr free ↦ rw (free, purge_version) (ground (arith, lookup-remove at a b.versions, apart))
    ]

IsUnmoved-store_version :
    (a : Address) (t y : String) (decl : Declaration) (req : PutRequest) (digest : String) (now : ℤ)
    (placed : String × Option Retention) (b : Bucket)
    → a.physical_key ≡ tenant_key t y
    → placed.0 ≢ tenant_key t y
    → IsUnmoved a b (store_version decl req digest now placed b).0
IsUnmoved-store_version a t y decl req digest now (key, retention) b mine other =
    let fresh : Address = record { physical_key = key; version = version_id (suc b.issued) } in
    let v = stamp decl req digest now (suc b.issued) retention in
    let apart : (fresh == a) ≡ false = elim (Bool-cases (fresh == a)) [
      | inr unmet ↦ unmet
      | inl met ↦
          let here : fresh ≡ a = ground (arith, address_eq.equals_iff fresh a, met) in
          absurd (other (ap (λ x. x.physical_key) here ∙ mine))
    ] in
    ground (arith, lookup-insert fresh a v b.versions, apart)

put_apart :
    (digest : List ℕ → String) (decl : Declaration) (ctx : Context) (locked : Option Error)
    (now : ℤ) (req : PutRequest) (placed : String × Option Retention) (t y : String)
    → contains_slash t ≡ false
    → IsForeign t ctx
    → admit_put digest decl ctx locked now req ≡ ok placed
    → placed.0 ≢ tenant_key t y
put_apart digest decl ctx locked now req placed t y plain other made =
    let rest : String → Result (String × Option Retention) = λ key.
      if not (req.content_sha256 == digest req.body)
      then err integrity
      else dated decl now req.retention >>= λ retention. acquire locked >> ok (key, retention) in
    let (key, both, passed) =
      >>=_inv (validate_key req.key >> physical decl ctx req.key) rest placed made in
    let (_, _, resolved) =
      >>=_inv (validate_key req.key) (λ _. physical decl ctx req.key) key both in
    elim (Bool-cases (req.content_sha256 == digest req.body)) [
      | inr differs ↦ absurd (ground (arith, passed, differs))
      | inl agrees ↦
          let kept : (dated decl now req.retention >>= λ retention.
          acquire locked >> ok (key, retention))
              ≡ ok placed =
            ground (arith, passed, agrees) in
          let (retention, _, last) =
            >>=_inv (dated decl now req.retention)
              (λ retention. acquire locked >> ok (key, retention)) placed kept in
          let (_, _, built) = >>=_inv (acquire locked) (λ _. ok (key, retention)) placed last in
          let one : (key, retention) ≡ placed = ground (arith, built) in
          subst (λ (x : String × Option Retention). x.0 ≢ tenant_key t y) one
            (physical_apart decl ctx req.key key t y plain other resolved)
    ]

module _ (digest : List ℕ → String) (t y : String) (a : Address) where
  answer_request_apart :
      (op : Operation) (r : Request) (b : Bucket)
      → contains_slash t ≡ false
      → IsForeign t op.context
      → a.physical_key ≡ tenant_key t y
      → IsUnmoved a b (answer_request digest op r b)
  unfolding put retain set_legal_hold purge
  answer_request_apart op (puts req) b plain other mine =
      IsUnmoved-guarded a (admit_put digest op.declaration op.context op.locked op.now req)
        (store_version op.declaration req (digest req.body) op.now) b
        (λ placed made.
          IsUnmoved-store_version a t y op.declaration req (digest req.body) op.now placed b mine (
            put_apart digest op.declaration op.context op.locked op.now req placed t y plain other
              made))
  answer_request_apart op (retains ref to) b plain other mine =
      let date = whole_seconds to in
      IsUnmoved-versioned a (locate op.declaration op.context ref)
        (λ x. check_retention op.declaration op.now date >> acquire op.locked >> ok x)
        (retain_version op.now date) b
        (passed_on (check_retention op.declaration op.now date >> acquire op.locked))
        (λ at. located_apart op.declaration op.context ref at a t y plain other mine)
        (λ at v. IsUnmoved-retain_version a op.now date at v b)
  answer_request_apart op (holds ref hold) b plain other mine =
      IsUnmoved-versioned a (locate op.declaration op.context ref)
        (λ x.
          if hold.on && hold.reason == ""
          then err legal_hold_reason_required
          else acquire op.locked >> ok x)
        (hold_version op.now ref hold) b
        (passed_hold (hold.on && hold.reason == "") legal_hold_reason_required (acquire op.locked))
        (λ at. located_apart op.declaration op.context ref at a t y plain other mine)
        (λ at v apart. ground (arith, lookup-insert at a (with_hold hold.on v) b.versions, apart))
  answer_request_apart op (purges ref) b plain other mine =
      IsUnmoved-versioned a (locate op.declaration op.context ref) (λ x. acquire op.locked >> ok x)
        (purge_version op.now ref) b (passed_on (acquire op.locked))
        (λ at. located_apart op.declaration op.context ref at a t y plain other mine)
        (λ at v. IsUnmoved-purge_version a op.now ref at v b)

abbrev pub AllForeign : String → List Operation → Type 0
AllForeign t [] = Unit
AllForeign t (op ∷ ops) = IsForeign t op.context × AllForeign t ops

-- A version that stands under a tenant's key, the tenant's name being free of slashes, is what it was after
-- any sequence of operations whose contexts name another tenant or none, in tenant and platform stores.
pub run_operations_isolation :
    (digest : List ℕ → String) (t key : String) (a : Address) (ops : List Operation) (b : Bucket)
    → contains_slash t ≡ false
    → a.physical_key ≡ tenant_key t key
    → AllForeign t ops
    → lookup a (run_operations digest ops b).versions ≡ lookup a b.versions
unfolding run_operations
run_operations_isolation digest t key a [] b plain mine others = refl
run_operations_isolation digest t key a (op ∷ ops) b plain mine foreigners =
    run_operations_isolation digest t key a ops (answer_request digest op op.request b) plain mine
      foreigners.1
    ∙ answer_request_apart digest t key a op op.request b plain foreigners.0 mine
