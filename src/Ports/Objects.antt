-- ===== src/Ports/Objects.antt =====
-- libs/backend/go/ports/objectstore.go: what an object store declares, the key, the retention and the
-- stored version of an object. A body is its bytes.
use Prim.Native.Char.{Char, code}
use dmpf.Prelude.{
  ℕ, String, string_eq, ◌==◌, Bool, true, false, ◌&&◌, ◌||◌, List, [], ◌∷◌, Option, none, some,
  if◌then◌else◌, eqb,
}
use dmpf.Prelude.Int.{ℤ, pos, ◌+ℤ◌, ltb_ℤ, leb_ℤ}
use dmpf.Prelude.Word.{wrap64}
use dmpf.Ports.Results.{
  Result, ok, err, object_key_invalid, scope_undeclared, encryption_undeclared,
  retention_ceiling_undeclared,
}

-- `other_scope ""` is the scope that is not declared.
pub data Scope : Type 0 where
  scope_tenant scope_platform : Scope
  other_scope : String → Scope

pub data RetentionMode : Type 0 where
  compliance governance : RetentionMode
  other_mode : String → RetentionMode

abbrev pub known : RetentionMode → Bool
known compliance = true
known governance = true
known (other_mode m) = false

pub record Retention : Type 0 where
  pub mode : RetentionMode
  pub until : ℤ

-- RetentionSpan.Add, on int64: the sum wraps, and a wrapped sum is reported.
unfoldable pub add_span : ℤ → ℤ → Option ℤ
add_span span at =
    let sum = wrap64 (at +ℤ span) in
    if (ltb_ℤ (pos 0) span && ltb_ℤ sum at) || (ltb_ℤ span (pos 0) && ltb_ℤ at sum)
    then none
    else some sum

pub record RetentionCeiling : Type 0 where
  pub span : ℤ
  pub origin : String

pub record Encryption : Type 0 where
  pub algorithm : String
  pub key_ref : String

pub record Declaration : Type 0 where
  pub scope : Scope
  pub encryption : Encryption
  pub ceiling : Option RetentionCeiling

abbrev pub is_slash : Char → Bool
is_slash c = eqb (code c) 47

abbrev leading_slash : String → Bool
leading_slash String.[] = false
leading_slash (String.◌∷◌ c s) = is_slash c

abbrev onto_first : Char → List String → List String
onto_first c [] = String.◌∷◌ c "" ∷ []
onto_first c (s ∷ rest) = String.◌∷◌ c s ∷ rest

-- strings.SplitSeq(key, "/")
unfoldable pub segments : String → List String
segments String.[] = "" ∷ []
segments (String.◌∷◌ c s) =
    let rest = segments s in if is_slash c then "" ∷ rest else onto_first c rest

unfoldable pub has_dot_segment : List String → Bool
has_dot_segment [] = false
has_dot_segment (s ∷ rest) = s == "." || s == ".." || has_dot_segment rest

unfoldable pub validate_key : String → Result (Unit {0})
unfolding segments has_dot_segment
validate_key key =
    if key == "" || leading_slash key || has_dot_segment (segments key)
    then err object_key_invalid
    else ok tt

abbrev validate_ceiling : Option RetentionCeiling → Result (Unit {0})
validate_ceiling none = ok tt
validate_ceiling (some c) =
    if leb_ℤ c.span (pos 0) || c.origin == "" then err retention_ceiling_undeclared else ok tt

pub validate_declaration : Declaration → Result (Unit {0})
validate_declaration d = elim d.scope [
  | other_scope s ↦ err scope_undeclared
  | _ ↦
      if d.encryption.algorithm == "" then err encryption_undeclared else validate_ceiling d.ceiling
]

pub record PutRequest : Type 0 where
  pub key : String
  pub body : List ℕ
  pub content_sha256 : String
  pub content_type : String
  pub retention : Option Retention

pub record ObjectRef : Type 0 where
  pub key : String
  pub version : String

pub record ObjectVersion : Type 0 where
  pub key : String
  pub version : String
  pub content_sha256 : String
  pub size : ℕ
  pub stored_at : ℤ

abbrev pub ref_of : ObjectVersion → ObjectRef
ref_of v = record { key = v.key; version = v.version }

pub record ObjectInfo : Type 0 where
  pub object_version : ObjectVersion
  pub content_type : String
  pub retention : Option Retention
  pub legal_hold : Bool
  pub encryption : Encryption

pub record Object : Type 0 where
  pub info : ObjectInfo
  pub body : List ℕ

pub record LegalHold : Type 0 where
  pub on : Bool
  pub reason : String

pub record HoldReceipt : Type 0 where
  pub ref : ObjectRef
  pub on : Bool
  pub reason : String
  pub at : ℤ

pub record PurgeReceipt : Type 0 where
  pub ref : ObjectRef
  pub purged_at : ℤ
  pub retained_until : ℤ
