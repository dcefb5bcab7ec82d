-- ===== src/Bookings/Resource.antt =====
-- apps/backend/bookings/domain: resource.go. Registering twice keeps the first registration.
use dmpf.Prelude.{
  String, string_eq, Bool, ◌&&◌, [], ◌∷◌, ◌==◌, not, if◌then◌else◌, ◌≡◌, ◌≢◌, ◌↔◌, true, refl,
  arith,
}
use text.Mathlib.TextEquality.{eq_iff}
use dmpf.Prelude.Int.{ℤ, pos, eqb_ℤ, eq_of_parts}
use dmpf.Domain.{Decision, accept, refuse, decide_over}

pub record RegisterResource : Type 0 where
  pub code : String
  pub name : String
  pub at : ℤ

pub record RegisteredResponse : Type 0 where
  pub code : String

pub data Event : Type 0 where
  resource_registered : (code name : String) (at : ℤ) → Event

abbrev pub event_name : Event → String
event_name (resource_registered c n t) = "bookings.resource-registered"

pub record Resource : Type 0 where
  pub code : String
  pub name : String
  pub registered_at : ℤ

abbrev pub new_resource : String → Resource
new_resource code = record { code = code; name = ""; registered_at = pos 0 }

pub record ResourceSnapshot : Type 0 where
  pub code : String
  pub name : String
  pub registered_at : ℤ

pub from_resource_snapshot : ResourceSnapshot → Resource
from_resource_snapshot s = record { code = s.code; name = s.name; registered_at = s.registered_at }

pub snapshot : Resource → ResourceSnapshot
snapshot r = record { code = r.code; name = r.name; registered_at = r.registered_at }

pub equal : ResourceSnapshot → ResourceSnapshot → Bool
equal s t = s.code == t.code && s.name == t.name && eqb_ℤ s.registered_at t.registered_at

abbrev clone : Resource → Resource
clone r = record { code = r.code; name = r.name; registered_at = r.registered_at }

abbrev pub code_code_empty : String
code_code_empty = "resource-scheduling/resource/code-empty"

abbrev pub code_name_empty : String
code_name_empty = "resource-scheduling/resource/name-empty"

decide_register : RegisterResource → Resource → Resource × Decision Event RegisteredResponse
decide_register cmd next =
    if cmd.code == ""
    then (next, refuse code_code_empty "code must not be empty" [])
    else if cmd.name == ""
    then (next, refuse code_name_empty "name must not be empty" [])
    else if not (eqb_ℤ next.registered_at (pos 0))
    then (next, accept (record { code = next.code }) [])
    else (
      record next { name = cmd.name; registered_at = cmd.at },
      accept (record { code = next.code }) (resource_registered next.code cmd.name cmd.at ∷ []),
    )

pub register : RegisterResource → Resource → Resource × Decision Event RegisteredResponse
unfolding decide_register decide_over
register cmd r = decide_over r clone (decide_register cmd)

-- A second registration, whatever its name, is accepted, changes nothing and emits nothing, provided
-- that both commands name a code and a name and the first carries an instant other than zero.
pub register_twice :
    (first second : RegisterResource) (r : Resource)
    → first.code ≢ ""
    → first.name ≢ ""
    → first.at ≢ pos 0
    → second.code ≢ ""
    → second.name ≢ ""
    → let q = (register first r).0 in
      (register second q ≡ (q, accept (record { code = r.code }) []))
unfolding register
register_twice first second r a b c d e = ground (
  arith,
  eq_iff first.code "",
  eq_iff first.name "",
  eq_iff second.code "",
  eq_iff second.name "",
)

-- A resource is rebuilt from its snapshot as it was, and two snapshots compare equal exactly when they are
-- the same.
pub from_resource_snapshot-snapshot :
    (r : Resource) (s t : ResourceSnapshot)
    → (from_resource_snapshot (snapshot r) ≡ r) × ((equal s t ≡ true) ↔ (s ≡ t))
unfolding from_resource_snapshot snapshot equal
from_resource_snapshot-snapshot r s t = (
  refl,
  ground (
    arith,
    eq_iff s.code t.code,
    eq_iff s.name t.name,
    eq_of_parts s.registered_at t.registered_at,
  ),
)
