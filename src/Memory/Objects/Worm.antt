-- ===== src/Memory/Objects/Worm.antt =====
-- libs/backend/go/memory/objectstore.go: an object put under COMPLIANCE retention, until its date.
use dmpf.Prelude.{
  ℕ, zero, suc, ◌-◌, ◌≡◌, refl, sym, ap, ◌∙◌, String, List, Option, none, some, arith,
}
use dmpf.Prelude.Int.{ℤ, pos}
use dmpf.Prelude.Decimal.{itoa, value, value-itoa}
use dmpf.Ports.Results.{ok, Error}
use dmpf.Ports.Context.{Context}
use dmpf.Ports.Objects.{
  Retention, compliance, Declaration, PutRequest, ObjectVersion, ref_of, Object,
}
use dmpf.Memory.ObjectKeys.{Address, Bucket}
use dmpf.Memory.Objects.{version_id, zeros, text_size, put, get, whole_seconds}
use dmpf.Memory.Objects.Requests.{Operation, run_operations}
use dmpf.Memory.Objects.Bounds.{IsBound}
use dmpf.Memory.Objects.Retained.{IsIssued, AllBefore, run_operations-IsKept}
use dmpf.Memory.Objects.RoundTrip.{put-IsStored}

-- The number that a version's name counts.
abbrev counted : String → ℕ
counted String.[] = 0
counted (String.◌∷◌ c String.[]) = 0
counted (String.◌∷◌ c (String.◌∷◌ d s)) = value 0 s

value-zeros : (k : ℕ) (s : String) → value 0 (zeros k s) ≡ value 0 s
value-zeros zero s = refl
value-zeros (suc k) s = value-zeros k s

counted-version_id : (n : ℕ) → counted (version_id n) ≡ n
unfolding version_id
counted-version_id n = value-zeros (6 - text_size (itoa (pos n))) (itoa (pos n)) ∙ value-itoa n

-- Versions are numbered apart.
version_id_inj : (n m : ℕ) → version_id n ≡ version_id m → n ≡ m
version_id_inj n m same = omega (arith, counted-version_id n, counted-version_id m, ap counted same)

version_id-IsIssued : (a : Address) (b : Bucket) → a.version ≡ version_id b.issued → IsIssued a b
version_id-IsIssued a b named n later met =
    omega (arith, later, version_id_inj b.issued n (sym named ∙ met))

-- An object that was put under COMPLIANCE retention stays: while the bucket's clock reads an instant before
-- the retention's date in whole seconds, Get answers the caller the body that was put, after any sequence
-- of puts, retentions, legal holds and purges that any stores and contexts make on the bucket.
pub put_retained :
    (digest : List ℕ → String) (decl : Declaration) (ctx : Context) (locked : Option Error)
    (now : ℤ) (req : PutRequest) (r : Retention) (b after : Bucket) (v : ObjectVersion)
    (ops : List Operation)
    → put digest decl ctx locked now req b ≡ (after, ok v)
    → req.retention ≡ some r
    → r.mode ≡ compliance
    → AllBefore (whole_seconds r).until ops
    → (o : Object) × (get decl ctx none (ref_of v) (run_operations digest ops after) ≡ ok o)
      × (o.body ≡ req.body)
      × (o.info.object_version ≡ v)
unfolding get
put_retained digest decl ctx locked now req r b after v ops done asked mode early =
    let (a, w, found, there, named, (body, version, _, kept, _, _)) =
      put-IsStored digest decl ctx locked now req b after v done in
    let until = (whole_seconds r).until in
    let bound : IsBound until w.info.retention = rw kept (rw asked (mode, omega arith)) in
    let (u, still, same_body, same_version, _) =
      run_operations-IsKept digest a w until ops after early (version_id-IsIssued a after named)
        (w, there, refl, refl, bound) in
    (
      record { info = u.info; body = u.body },
      ground (arith, found, still),
      same_body ∙ body,
      same_version ∙ version,
    )
