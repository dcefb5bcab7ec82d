-- ===== src/Memory/Rows.antt =====
-- libs/backend/go/memory/store.go, tx.go: the rows of one table, scoped by tenant.
-- `Ident` and `S` are the identifiers and the snapshots that Go erases to `any`; a model value is never
-- mutated, so the clones that Go takes on every crossing are the values themselves.
pub mod Uniqueness
use Prim.Native.String.{◌++◌ as text_append}
use dmpf.Prelude.{
  ℕ, ◌≡◌, refl, ◌↔◌, String, string_eq, nat_eq, Bool, true, false, ◌&&◌, ◌||◌, not, List, [], ◌∷◌,
  Option, none, some, Eq, ◌==◌, arith, text_ltb, eqb, if◌then◌else◌,
}
use text.Mathlib.TextEquality.{eq_iff}
use dmpf.Prelude.Word.{full_range}
use dmpf.Prelude.Maps.{lookup, insert}
use dmpf.Domain.{Rejection}
use dmpf.Ports.Results.{
  Result, ok, err, Error, not_found, version_conflict, cross_tenant_access, unique_violation,
  tenant_unresolved, context_absent,
}
use dmpf.Ports.Context.{Context, ExecutionContext, require_execution_context}

-- `Version` is a uint64.
pub record Row (S : Type 0) : Type 0 where
  pub snapshot : S
  pub version : ℕ

pub record RowKey (Ident : Type 0) : Type 0 where
  pub tenant : String
  pub id : Ident

-- `key` is `none` where one of its columns is NULL. `Repository` panics on a constraint without a name, a
-- key or a rejection, so a table of the model has them.
pub record Unique (S : Type 0) : Type 0 where
  pub name : String
  pub key : S → Option (List String)
  pub rejection : Rejection

-- `show_id` is what `%v` prints of an identifier.
pub record Table (Ident S : Type 0) : Type 0 where
  pub name : String
  pub show_id : Ident → String
  pub unique : List (Unique S)

-- slices.Equal
unfoldable pub same_columns : List String → List String → Bool
same_columns [] [] = true
same_columns (a ∷ xs) (b ∷ ys) = a == b && same_columns xs ys
same_columns _ _ = false

unfoldable pub scoped_key : {Ident : Type 0} → Context → Ident → Result (RowKey Ident)
unfolding require_execution_context
scoped_key ctx id = elim ctx.execution [
  | none ↦ err context_absent
  | some execution ↦ elim execution.tenant [
    | none ↦ err tenant_unresolved
    | some tenant ↦ ok (record { tenant = tenant; id = id })
  ]
]

module _ {Ident : Type 0} ⦃e : Eq Ident⦄ where
  abbrev pub same_key : RowKey Ident → RowKey Ident → Bool
  same_key a b = a.tenant == b.tenant && a.id == b.id

  pub same_key_iff : (a b : RowKey Ident) → (same_key a b ≡ true) ↔ (a ≡ b)
  same_key_iff a b = ground (arith, eq_iff a.tenant b.tenant, e.equals_iff a.id b.id)

instance abbrev pub row_key_eq : {Ident : Type 0} ⦃e : Eq Ident⦄ → Eq (RowKey Ident)
row_key_eq = record { equals = same_key; equals_iff = same_key_iff }

abbrev pub Rows : Type 0 → Type 0 → Type 0
Rows Ident S = List (RowKey Ident × Row S)

abbrev pub Tables : Type 0 → Type 0 → Type 0
Tables Ident S = List (String × Rows Ident S)

module _ {Ident S : Type 0} ⦃e : Eq Ident⦄ where
  -- The lowest of the other tenants that hold the identifier; the empty text is none.
  pub owner_of : RowKey Ident → String → Rows Ident S → String
  owner_of key owner [] = owner
  owner_of key owner ((other, row) ∷ rest) =
      owner_of key
        (if other.id == key.id
            && not (other.tenant == key.tenant)
            && (owner == "" || text_ltb other.tenant owner)
          then other.tenant
          else owner)
        rest

  pub miss : Table Ident S → RowKey Ident → Rows Ident S → Error
  unfolding owner_of
  miss t key rows =
      let owner = owner_of key "" rows in
      if owner == ""
      then not_found
      else cross_tenant_access (text_append t.name (text_append "/" (t.show_id key.id))) key.tenant
          owner

  unfoldable pub load_key : Table Ident S → RowKey Ident → Tables Ident S → Result (S × ℕ)
  unfolding miss
  load_key t key tables = elim (lookup t.name tables) [
    | none ↦ err not_found
    | some rows ↦ elim (lookup key rows) [
      | none ↦ err (miss t key rows)
      | some row ↦ ok (row.snapshot, row.version)
    ]
  ]

  -- Whether another row of the tenant has the key `want` under `u`.
  unfoldable pub collides : Unique S → List String → RowKey Ident → Rows Ident S → Bool
  collides u want key [] = false
  collides u want key ((other, row) ∷ rest) =
      let later = collides u want key rest in
      if not (other.tenant == key.tenant) || other.id == key.id
      then later
      else elim (u.key row.snapshot) [ none ↦ later | some got ↦ same_columns got want || later ]

  unfoldable pub breaks : Unique S → RowKey Ident → S → Rows Ident S → Bool
  unfolding collides
  breaks u key state rows = elim (u.key state) [
    | none ↦ false
    | some want ↦ collides u want key rows
  ]

  -- The first declared constraint that the state breaks.
  unfoldable pub violation_from :
      String → List (Unique S) → RowKey Ident → S → ℕ → Rows Ident S → Option Error
  violation_from table [] key state writes rows = none
  violation_from table (u ∷ us) key state writes rows =
      let later = violation_from table us key state writes rows in
      if breaks u key state rows
      then some (unique_violation table u.name (if eqb writes 0 then some u.rejection else none))
      else later

  unfoldable pub violation : Table Ident S → RowKey Ident → S → ℕ → Rows Ident S → Option Error
  unfolding violation_from
  violation t = violation_from t.name t.unique

  abbrev pub version_at : RowKey Ident → Rows Ident S → ℕ
  version_at key rows = elim (lookup key rows) [ none ↦ 0 | some row ↦ row.version ]
