-- ===== src/Memory/Objects/RoundTrip.antt =====
-- libs/backend/go/memory/objectstore.go: what Get and Head answer for the version that Put returned.
use dmpf.Prelude.{
  ℕ, suc, ◌≡◌, refl, sym, subst, ap, ◌∙◌, String, string_eq, ◌==◌, true, false, List, Option, none,
  some, if◌then◌else◌, not, arith, Bool-cases, inl, inr,
}
use text.Mathlib.TextEquality.{eq_iff}
use dmpf.Prelude.Int.{ℤ}
use dmpf.Prelude.Maps.{lookup, lookup-insert_self}
use dmpf.Ports.Results.{Result, ok, err, panic, ◌>>=◌, ◌>>◌, Error, integrity}
use dmpf.Ports.Context.{Context}
use dmpf.Ports.Objects.{Retention, Declaration, PutRequest, ObjectVersion, ref_of, validate_key}
use dmpf.Memory.ObjectKeys.{Address, address_eq, Bucket, StoredVersion, acquire, physical, locate}
use dmpf.Memory.Objects.{
  guarded, version_id, dated, stamp, store_version, admit_put, put, get, head, whole_seconds,
  check_retention, text_size,
}
use dmpf.Memory.Objects.Requests.{>>=_inv}

-- What an admitted request was: a valid key, resolved, and a body that hashes to what the caller computed.
admitted :
    (digest : List ℕ → String) (decl : Declaration) (ctx : Context) (locked : Option Error)
    (now : ℤ) (req : PutRequest) (placed : String × Option Retention)
    → admit_put digest decl ctx locked now req ≡ ok placed
    → (validate_key req.key ≡ ok tt)
      × (physical decl ctx req.key ≡ ok placed.0)
      × ((req.content_sha256 == digest req.body) ≡ true)
      × (dated decl now req.retention ≡ ok placed.1)
admitted digest decl ctx locked now req placed made =
    let rest : String → Result (String × Option Retention) = λ key.
      if not (req.content_sha256 == digest req.body)
      then err integrity
      else dated decl now req.retention >>= λ retention. acquire locked >> ok (key, retention) in
    let (key, both, passed) =
      >>=_inv (validate_key req.key >> physical decl ctx req.key) rest placed made in
    let (_, valid, resolved) =
      >>=_inv (validate_key req.key) (λ _. physical decl ctx req.key) key both in
    elim (Bool-cases (req.content_sha256 == digest req.body)) [
      | inr differs ↦ absurd (ground (arith, passed, differs))
      | inl agrees ↦
          let kept : (dated decl now req.retention >>= λ retention.
          acquire locked >> ok (key, retention))
              ≡ ok placed =
            ground (arith, passed, agrees) in
          let (retention, dates, last) =
            >>=_inv (dated decl now req.retention)
              (λ retention. acquire locked >> ok (key, retention)) placed kept in
          let (_, _, built) = >>=_inv (acquire locked) (λ _. ok (key, retention)) placed last in
          let one : (key, retention) ≡ placed = ground (arith, built) in
          (valid, resolved ∙ ap (λ x. ok (x.0)) one, agrees, dates ∙ ap (λ x. ok (x.1)) one)
    ]

version_id_named : (n : ℕ) → (version_id n == "") ≡ false
unfolding version_id
version_id_named n = elim (Bool-cases (version_id n == "")) [
  | inr named ↦ named
  | inl empty ↦ absurd (omega (arith, ap text_size ((eq_iff (version_id n) "").0 empty)))
]

guarded_inv :
    {A B : Type 0} (r : Result A) (run : A → Bucket → Bucket × Result B) (b after : Bucket) (x : B)
    → guarded r run b ≡ (after, ok x)
    → (a : A) × (r ≡ ok a) × (run a b ≡ (after, ok x))
guarded_inv (ok a) run b after x done = (a, refl, done)
guarded_inv (err e) run b after x done = absurd (ground (arith, ap (λ p. p.1) done))
guarded_inv panic run b after x done = absurd (ground (arith, ap (λ p. p.1) done))

abbrev pub in_seconds : Option Retention → Option Retention
in_seconds none = none
in_seconds (some r) = some (whole_seconds r)

dated_whole :
    (decl : Declaration) (now : ℤ) (asked kept : Option Retention)
    → dated decl now asked ≡ ok kept
    → kept ≡ in_seconds asked
dated_whole decl now none kept made = ground (arith, made)
dated_whole decl now (some r) kept made =
    let (_, _, built) =
      >>=_inv (check_retention decl now (whole_seconds r)) (λ _. ok (some (whole_seconds r))) kept
        made in
    ground (arith, built)

located :
    (decl : Declaration) (ctx : Context) (key p : String) (n : ℕ)
    → validate_key key ≡ ok tt
    → physical decl ctx key ≡ ok p
    → locate decl ctx (record { key = key; version = version_id n })
      ≡ ok (record { physical_key = p; version = version_id n })
unfolding locate
located decl ctx key p n valid resolved = ground (arith, version_id_named n, valid, resolved)

-- What a put that succeeded left at an address, which the reference that it returned names.
abbrev pub IsStored :
    (List ℕ → String) → Declaration → PutRequest → Address → StoredVersion → ObjectVersion → Type 0
IsStored digest decl req a w v =
    (w.body ≡ req.body)
    × (w.info.object_version ≡ v)
    × (v.content_sha256 ≡ req.content_sha256)
    × (w.info.retention ≡ in_seconds req.retention)
    × (w.info.legal_hold ≡ false)
    × (w.info.encryption ≡ decl.encryption)

module _ (digest : List ℕ → String) (decl : Declaration) (ctx : Context) where
  pub put-IsStored :
      (locked : Option Error) (now : ℤ) (req : PutRequest) (b after : Bucket) (v : ObjectVersion)
      → put digest decl ctx locked now req b ≡ (after, ok v)
      → (a : Address) × (w : StoredVersion) × (locate decl ctx (ref_of v) ≡ ok a)
        × (lookup a after.versions ≡ some w)
        × (a.version ≡ version_id after.issued)
        × IsStored digest decl req a w v
  unfolding put
  put-IsStored locked now req b after v done =
      let ((key, retention), made, stored) =
        guarded_inv (admit_put digest decl ctx locked now req)
          (store_version decl req (digest req.body) now) b after v done in
      let (valid, resolved, agrees, dates) =
        admitted digest decl ctx locked now req (key, retention) made in
      let w = stamp decl req (digest req.body) now (suc b.issued) retention in
      let one : w.info.object_version ≡ v = ground (arith, ap (λ p. p.1) stored) in
      let a : Address = record { physical_key = key; version = version_id (suc b.issued) } in
      (
        a,
        w,
        subst (λ (x : ObjectVersion). locate decl ctx (ref_of x) ≡ ok a) one
            (located decl ctx req.key key (suc b.issued) valid resolved),
        subst (λ (x : Bucket). lookup a x.versions ≡ some w) (ap (λ p. p.0) stored)
            (lookup-insert_self a w b.versions),
        ap (λ p. version_id p.0.issued) stored,
        (
          refl,
          one,
          ap (λ x. x.content_sha256) (sym one)
              ∙ sym ((eq_iff req.content_sha256 (digest req.body)).0 agrees),
          dated_whole decl now req.retention retention dates,
          refl,
          refl,
        ),
      )

  -- After a put that succeeded, Get and Head answer, through the same store and for the same caller, the
  -- version that it returned: the body is the one that was put, and its hash the one that the caller
  -- computed, the retention is the one that was asked, in whole seconds, no legal hold is on, and the
  -- encryption is the declared one.
  pub put-get :
      (locked : Option Error) (now : ℤ) (req : PutRequest) (b after : Bucket) (v : ObjectVersion)
      → put digest decl ctx locked now req b ≡ (after, ok v)
      → (a : Address) × (w : StoredVersion) × (get decl ctx none (ref_of v) after
          ≡ ok (record { info = w.info; body = w.body }))
        × (head decl ctx none (ref_of v) after ≡ ok w.info)
        × IsStored digest decl req a w v
  unfolding get head
  put-get locked now req b after v done =
      let (a, w, found, there, _, stored) = put-IsStored locked now req b after v done in
      (a, w, ground (arith, found, there), ground (arith, found, there), stored)
