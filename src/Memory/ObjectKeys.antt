-- ===== src/Memory/ObjectKeys.antt =====
-- libs/backend/go/memory/objectstore.go: the addresses of a bucket's versions, which a store builds from
-- the carrier alone.
use text.Mathlib.TextEquality.{eq_iff}
use dmpf.Prelude.{
  append_text, ℕ, ◌≡◌, ◌↔◌, String, string_eq, ◌==◌, Bool, true, false, ◌&&◌, ◌||◌, List, [], ◌∷◌,
  Option, none, some, Eq, if◌then◌else◌, text_ltb, arith,
}
use dmpf.Ports.Results.{
  Result, ok, err, ◌>>=◌, ◌>>◌, Error, tenant_unresolved, version_required, scope_mismatch,
}
use dmpf.Ports.Context.{Context, require_execution_context}
use dmpf.Ports.Objects.{
  Scope, scope_platform, Declaration, is_slash, validate_key, ObjectRef, ObjectInfo,
}

pub record Address : Type 0 where
  pub physical_key : String
  pub version : String

abbrev pub same_address : Address → Address → Bool
same_address a b = a.physical_key == b.physical_key && a.version == b.version

pub same_address_iff : (a b : Address) → (same_address a b ≡ true) ↔ (a ≡ b)
same_address_iff a b =
    ground (arith, eq_iff a.physical_key b.physical_key, eq_iff a.version b.version)

instance abbrev pub address_eq : Eq Address
address_eq = record { equals = same_address; equals_iff = same_address_iff }

pub record StoredVersion : Type 0 where
  pub info : ObjectInfo
  pub body : List ℕ

pub record Bucket : Type 0 where
  pub versions : List (Address × StoredVersion)
  pub issued : ℕ

abbrev pub new_bucket : Bucket
new_bucket = record { versions = []; issued = 0 }

-- ObjectBucket.PhysicalKeys: sorted, and each once.
abbrev insert_sorted : String → List String → List String
insert_sorted key [] = key ∷ []
insert_sorted key (k ∷ rest) =
    let later = insert_sorted key rest in
    if key == k then k ∷ rest else if text_ltb key k then key ∷ k ∷ rest else k ∷ later

abbrev sorted_keys : List (Address × StoredVersion) → List String
sorted_keys [] = []
sorted_keys ((a, v) ∷ rest) = insert_sorted a.physical_key (sorted_keys rest)

abbrev physical_keys : Bucket → List String
physical_keys b = sorted_keys b.versions

abbrev pub acquire : Option Error → Result (Unit {0})
acquire none = ok tt
acquire (some e) = err e

unfoldable pub contains_slash : String → Bool
contains_slash String.[] = false
contains_slash (String.◌∷◌ c s) = is_slash c || contains_slash s

abbrev pub tenant_key : String → String → String
tenant_key tenant key = append_text "tenant/" (append_text tenant (append_text "/" key))

abbrev pub physical_of : Scope → Option String → String → Result String
physical_of scope_platform (some tenant) key = err scope_mismatch
physical_of scope_platform none key = ok (append_text "platform/" key)
physical_of _ none key = err tenant_unresolved
physical_of _ (some tenant) key =
    if contains_slash tenant then err tenant_unresolved else ok (tenant_key tenant key)

unfoldable pub physical : Declaration → Context → String → Result String
unfolding require_execution_context
physical decl ctx key = acquire ctx.cancelled >> require_execution_context ctx >>= λ execution.
    physical_of decl.scope execution.tenant key

unfoldable pub locate : Declaration → Context → ObjectRef → Result Address
locate decl ctx ref =
    if ref.version == ""
    then err version_required
    else validate_key ref.key >> physical decl ctx ref.key >>= λ key.
        ok (record { physical_key = key; version = ref.version })
