-- ===== src/Memory/Objects.antt =====
-- libs/backend/go/memory/objectstore.go: the operations of an object store on a bucket that several stores
-- share. Each takes the context, what `ctx.Err()` says once the bucket's lock is held, and the reading of
-- the bucket's clock. The count of issued versions does not reach the end of an int.
pub mod Requests
pub mod Bounds
pub mod Retained
pub mod Prefixes
pub mod Isolation
pub mod RoundTrip
pub mod Worm
use text.Mathlib.TextEquality.{eq_iff}
use dmpf.Prelude.{
  append_text, ℕ, zero, suc, ◌+◌, ◌-◌, ◌%◌, ◌≡◌, ◌↔◌, String, string_eq, ◌==◌, Bool, true, false,
  ◌&&◌, ◌||◌, not, List, [], ◌∷◌, map, length, Option, none, some, Eq, if◌then◌else◌, text_ltb,
  arith,
}
use dmpf.Prelude.Int.{ℤ, pos, negsuc, ◌-ℤ◌, ltb_ℤ, leb_ℤ, eqb_ℤ}
use dmpf.Prelude.Decimal.{itoa}
use dmpf.Prelude.Maps.{lookup, insert, remove}
use dmpf.Ports.Results.{
  Result, ok, err, panic, ◌>>=◌, ◌>>◌, Error, tenant_unresolved, version_required, integrity,
  object_not_found, object_locked, retention_unbounded, retention_above_ceiling,
  retention_not_extended, retention_mode_change, retention_mode_unknown,
  retention_ceiling_undeclared, scope_mismatch, legal_hold_reason_required, incomplete_object_store,
}
use dmpf.Ports.Context.{Context, ExecutionContext, require_execution_context}
use dmpf.Ports.Objects.{
  Scope, scope_platform, scope_tenant, other_scope, RetentionMode, compliance, governance,
  other_mode, known, Retention, add_span, RetentionCeiling, Declaration, is_slash, validate_key,
  validate_declaration, PutRequest, ObjectRef, ObjectVersion, ObjectInfo, Object, LegalHold,
  HoldReceipt, PurgeReceipt,
}
use dmpf.Memory.ObjectKeys.{
  Address, address_eq, StoredVersion, Bucket, new_bucket, acquire, contains_slash, tenant_key,
  physical_of, physical, locate,
}

-- NewObjectStore, given whether it got a bucket with a clock.
new_object_store : Bool → Declaration → Result Declaration
new_object_store false decl = err incomplete_object_store
new_object_store true decl = validate_declaration decl >> ok decl

abbrev resolution : ℕ
resolution = 1000000000

-- What the date keeps of its seconds; the remainder has the sign of the date.
abbrev whole_instant : ℤ → ℤ
whole_instant (pos n) = pos (n - n % resolution)
whole_instant (negsuc n) = pos 0 -ℤ pos (suc n - suc n % resolution)

abbrev pub whole_seconds : Retention → Retention
whole_seconds r = record r { until = whole_instant r.until }

abbrev past : ℤ → Option ℤ → Bool
past until none = false
past until (some ceiling) = ltb_ℤ ceiling until

unfoldable pub check_retention : Declaration → ℤ → Retention → Result (Unit {0})
check_retention decl now r = elim decl.ceiling [
  | none ↦ err retention_ceiling_undeclared
  | some ceiling ↦
      if not (known r.mode)
      then err retention_mode_unknown
      else if leb_ℤ r.until now
      then err retention_unbounded
      else if past r.until (add_span ceiling.span now)
      then err retention_above_ceiling
      else ok tt
]

abbrev pub dated : Declaration → ℤ → Option Retention → Result (Option Retention)
dated decl now none = ok none
dated decl now (some r) = check_retention decl now (whole_seconds r) >> ok (some (whole_seconds r))

-- fmt.Sprintf("v-%06d", n)
abbrev pub text_size : String → ℕ
text_size String.[] = 0
text_size (String.◌∷◌ c s) = suc (text_size s)

abbrev pub zeros : ℕ → String → String
zeros zero s = s
zeros (suc n) s = String.◌∷◌ "0" (zeros n s)

unfoldable pub version_id : ℕ → String
version_id n = let digits = itoa (pos n) in append_text "v-" (zeros (6 - text_size digits) digits)

-- An operation on the bucket runs where what comes before it is no error.
abbrev pub guarded :
    {A B : Type 0} → Result A → (A → Bucket → Bucket × Result B) → Bucket → Bucket × Result B
guarded (ok a) run b = run a b
guarded (err e) run b = (b, err e)
guarded panic run b = (b, panic)

-- The version at an address, where there is one.
abbrev pub with_version :
    {B : Type 0}
    → Address
    → (StoredVersion → Bucket → Bucket × Result B)
    → Bucket
    → Bucket × Result B
with_version a run b = elim (lookup a b.versions) [
  | none ↦ (b, err object_not_found)
  | some v ↦ run v b
]

abbrev pub write_version : Address → StoredVersion → Bucket → Bucket
write_version a v b = record b { versions = insert a v b.versions }

abbrev pub stamp : Declaration → PutRequest → String → ℤ → ℕ → Option Retention → StoredVersion
stamp decl req digest now n retention = record {
  info = record {
    object_version = record {
      key = req.key;
      version = version_id n;
      content_sha256 = digest;
      size = length req.body;
      stored_at = now;
    };
    content_type = req.content_type;
    retention = retention;
    legal_hold = false;
    encryption = decl.encryption;
  };
  body = req.body;
}

abbrev pub store_version :
    Declaration
    → PutRequest
    → String
    → ℤ
    → String × Option Retention
    → Bucket
    → Bucket × Result ObjectVersion
store_version decl req digest now (key, retention) b =
    let n = suc b.issued in
    let v = stamp decl req digest now n retention in
    (
      record {
        versions = insert (record { physical_key = key; version = version_id n }) v b.versions;
        issued = n;
      },
      ok v.info.object_version,
    )

abbrev pub downgrades : RetentionMode → RetentionMode → Bool
downgrades compliance governance = true
downgrades _ _ = false

abbrev pub promotes : RetentionMode → RetentionMode → Bool
promotes governance compliance = true
promotes _ _ = false

-- Why a retention is refused on a version, given the one that it has.
abbrev pub extension_refusal : ℤ → Option Retention → Retention → Option Error
extension_refusal now none to = none
extension_refusal now (some current) to =
    if not (ltb_ℤ now current.until)
    then none
    else if downgrades current.mode to.mode
    then some retention_mode_change
    else if ltb_ℤ to.until current.until
        || (eqb_ℤ to.until current.until && not (promotes current.mode to.mode))
    then some retention_not_extended
    else none

abbrev pub with_retention : Retention → StoredVersion → StoredVersion
with_retention r v = record v { info = record (v.info) { retention = some r } }

abbrev pub with_hold : Bool → StoredVersion → StoredVersion
with_hold on v = record v { info = record (v.info) { legal_hold = on } }

abbrev pub retain_version :
    ℤ → Retention → Address → StoredVersion → Bucket → Bucket × Result ObjectInfo
retain_version now to a v b = elim (extension_refusal now v.info.retention to) [
  | some e ↦ (b, err e)
  | none ↦ (write_version a (with_retention to v) b, ok (with_retention to v).info)
]

-- Whether the version is retained at an instant.
abbrev pub is_retained : ℤ → Option Retention → Bool
is_retained now none = false
is_retained now (some r) = ltb_ℤ now r.until

abbrev retained_until : Option Retention → ℤ
retained_until none = pos 0
retained_until (some r) = r.until

abbrev pub purge_version :
    ℤ → ObjectRef → Address → StoredVersion → Bucket → Bucket × Result PurgeReceipt
purge_version now ref a v b =
    if v.info.legal_hold || is_retained now v.info.retention then (b, err object_locked) else (
      record b { versions = remove a b.versions },
      ok (record { ref = ref; purged_at = now; retained_until = retained_until v.info.retention }),
    )

abbrev pub hold_version :
    ℤ → ObjectRef → LegalHold → Address → StoredVersion → Bucket → Bucket × Result HoldReceipt
hold_version now ref hold a v b = (
  write_version a (with_hold hold.on v) b,
  ok (record { ref = ref; on = hold.on; reason = hold.reason; at = now }),
)

-- `digest` is what the hex SHA-256 of the body is. What is refused is refused before the bucket is reached.
module _ (digest : List ℕ → String) (decl : Declaration) (ctx : Context)
    (locked : Option Error) where
  abbrev pub admit_put : ℤ → PutRequest → Result (String × Option Retention)
  admit_put now req = validate_key req.key >> physical decl ctx req.key >>= λ key.
      if not (req.content_sha256 == digest req.body)
      then err integrity
      else dated decl now req.retention >>= λ retention. acquire locked >> ok (key, retention)

  unfoldable pub put : ℤ → PutRequest → Bucket → Bucket × Result ObjectVersion
  put now req = guarded (admit_put now req) (store_version decl req (digest req.body) now)

module _ (decl : Declaration) (ctx : Context) (locked : Option Error) where
  unfoldable pub get : ObjectRef → Bucket → Result Object
  get ref b = locate decl ctx ref >>= λ a. acquire locked >> elim (lookup a b.versions) [
    | none ↦ err object_not_found
    | some v ↦ ok (record { info = v.info; body = v.body })
  ]

  unfoldable pub head : ObjectRef → Bucket → Result ObjectInfo
  head ref b = locate decl ctx ref >>= λ a.
      acquire locked
      >> elim (lookup a b.versions) [ none ↦ err object_not_found | some v ↦ ok v.info ]

  abbrev pub admit_retention : ℤ → ObjectRef → Retention → Result Address
  admit_retention now ref to =
      locate decl ctx ref >>= λ a. check_retention decl now to >> acquire locked >> ok a

  unfoldable pub retain : ℤ → ObjectRef → Retention → Bucket → Bucket × Result ObjectInfo
  retain now ref to =
      guarded (admit_retention now ref (whole_seconds to))
        (λ a. with_version a (retain_version now (whole_seconds to) a))

  abbrev pub admit_hold : ObjectRef → LegalHold → Result Address
  admit_hold ref hold = locate decl ctx ref >>= λ a.
      if hold.on && hold.reason == ""
      then err legal_hold_reason_required
      else acquire locked >> ok a

  unfoldable pub set_legal_hold : ℤ → ObjectRef → LegalHold → Bucket → Bucket × Result HoldReceipt
  set_legal_hold now ref hold =
      guarded (admit_hold ref hold) (λ a. with_version a (hold_version now ref hold a))

  abbrev pub admit_purge : ObjectRef → Result Address
  admit_purge ref = locate decl ctx ref >>= λ a. acquire locked >> ok a

  unfoldable pub purge : ℤ → ObjectRef → Bucket → Bucket × Result PurgeReceipt
  purge now ref = guarded (admit_purge ref) (λ a. with_version a (purge_version now ref a))
