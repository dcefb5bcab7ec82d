-- ===== src/Memory/Rows/Uniqueness.antt =====
-- A write that no declared constraint refuses leaves the constraints of its table intact.
use dmpf.Prelude.{
  ◌⊎◌, ℕ, ◌≡◌, refl, ◌≢◌, ◌↔◌, String, true, false, List, [], ◌∷◌, none, some, Eq, arith, All,
  Option-cases, inl, inr, string_eq,
}
use text.Mathlib.TextEquality.{eq_iff}
use dmpf.Memory.Rows.{
  Row, RowKey, Rows, Table, Unique, same_columns, collides, breaks, violation, violation_from,
}

same_columns_iff : (xs ys : List String) → (same_columns xs ys ≡ true) ↔ (xs ≡ ys)
unfolding same_columns
same_columns_iff [] [] = ground arith
same_columns_iff [] (b ∷ ys) = ground arith
same_columns_iff (a ∷ xs) [] = ground arith
same_columns_iff (a ∷ xs) (b ∷ ys) = ground (arith, eq_iff a b, same_columns_iff xs ys)

module _ {Ident S : Type 0} ⦃e : Eq Ident⦄ where
  -- No other row of the tenant has the columns of the state; columns that hold a NULL are of no row.
  abbrev pub IsApart : Unique S → RowKey Ident → S → RowKey Ident × Row S → Type 0
  IsApart u key state (other, row) =
      (columns : List String)
      → u.key state ≡ some columns
      → other.tenant ≡ key.tenant
      → other.id ≢ key.id
      → u.key row.snapshot ≢ some columns

  collides-IsApart :
      (u : Unique S) (key : RowKey Ident) (state : S) (want : List String) (rows : Rows Ident S)
      → u.key state ≡ some want
      → collides u want key rows ≡ false
      → All (IsApart u key state) rows
  unfolding collides
  collides-IsApart u key state want [] has h = tt
  collides-IsApart u key state want ((other, row) ∷ rows) has h = (
    (λ columns p q r s. ground (
      arith,
      eq_iff other.tenant key.tenant,
      e.equals_iff other.id key.id,
      same_columns_iff columns want,
    )),
    collides-IsApart u key state want rows has (ground arith),
  )

  none-IsApart :
      (u : Unique S) (key : RowKey Ident) (state : S) (rows : Rows Ident S)
      → u.key state ≡ none
      → All (IsApart u key state) rows
  none-IsApart u key state [] null = tt
  none-IsApart u key state ((other, row) ∷ rows) null =
      ((λ columns p q r s. absurd (ground arith)), none-IsApart u key state rows null)

  breaks-IsApart :
      (u : Unique S) (key : RowKey Ident) (state : S) (rows : Rows Ident S)
      → breaks u key state rows ≡ false
      → All (IsApart u key state) rows
  unfolding breaks
  breaks-IsApart u key state rows h = elim (Option-cases (u.key state)) [
    | inl null ↦ none-IsApart u key state rows null
    | inr (want, has) ↦ collides-IsApart u key state want rows has (ground arith)
  ]

  violation_from-IsApart :
      (table : String) (us : List (Unique S)) (key : RowKey Ident) (state : S) (writes : ℕ)
      (rows : Rows Ident S)
      → violation_from table us key state writes rows ≡ none
      → All (λ u. All (IsApart u key state) rows) us
  unfolding violation_from
  violation_from-IsApart table [] key state writes rows h = tt
  violation_from-IsApart table (u ∷ us) key state writes rows h = (
    breaks-IsApart u key state rows (ground arith),
    violation_from-IsApart table us key state writes rows (ground arith),
  )

  pub violation-IsApart :
      (t : Table Ident S) (key : RowKey Ident) (state : S) (writes : ℕ) (rows : Rows Ident S)
      → violation t key state writes rows ≡ none
      → All (λ u. All (IsApart u key state) rows) t.unique
  unfolding violation
  violation-IsApart t = violation_from-IsApart t.name t.unique

  -- The other direction: rows that are apart break no constraint, and where the state holds a NULL in the
  -- columns of a constraint every row is apart.
  apart-collides :
      (u : Unique S) (key : RowKey Ident) (state : S) (want : List String) (rows : Rows Ident S)
      → u.key state ≡ some want
      → All (IsApart u key state) rows
      → collides u want key rows ≡ false
  unfolding collides
  apart-collides u key state want [] has apart = refl
  apart-collides u key state want ((other, row) ∷ rows) has (this, apart) =
      let later = apart-collides u key state want rows has apart in
      elim (Option-cases (u.key row.snapshot)) [
        | inl null ↦ ground (arith, later, null)
        | inr (got, there) ↦ ground (
          arith,
          later,
          there,
          eq_iff other.tenant key.tenant,
          e.equals_iff other.id key.id,
          same_columns_iff got want,
          this want has,
        )
      ]

  apart-breaks :
      (u : Unique S) (key : RowKey Ident) (state : S) (rows : Rows Ident S)
      → All (IsApart u key state) rows
      → breaks u key state rows ≡ false
  unfolding breaks
  apart-breaks u key state rows apart = elim (Option-cases (u.key state)) [
    | inl null ↦ ground (arith, null)
    | inr (want, has) ↦ ground (arith, has, apart-collides u key state want rows has apart)
  ]

  apart-violation_from :
      (table : String) (us : List (Unique S)) (key : RowKey Ident) (state : S) (writes : ℕ)
      (rows : Rows Ident S)
      → All (λ u. All (IsApart u key state) rows) us
      → violation_from table us key state writes rows ≡ none
  unfolding violation_from
  apart-violation_from table [] key state writes rows apart = refl
  apart-violation_from table (u ∷ us) key state writes rows (this, apart) = ground (
    arith,
    apart-breaks u key state rows this,
    apart-violation_from table us key state writes rows apart,
  )

  pub apart-violation :
      (t : Table Ident S) (key : RowKey Ident) (state : S) (writes : ℕ) (rows : Rows Ident S)
      → All (λ u. All (IsApart u key state) rows) t.unique
      → violation t key state writes rows ≡ none
  unfolding violation
  apart-violation t = apart-violation_from t.name t.unique

  -- A row is apart from a state that holds a NULL, and so are all rows.
  pub null-IsApart :
      (key : RowKey Ident) (state : S) (rows : Rows Ident S) (us : List (Unique S))
      → All (λ u. (u.key state ≡ none) ⊎ All (IsApart u key state) rows) us
      → All (λ u. All (IsApart u key state) rows) us
  null-IsApart key state rows [] h = tt
  null-IsApart key state rows (u ∷ us) (inl null, h) =
      (none-IsApart u key state rows null, null-IsApart key state rows us h)
  null-IsApart key state rows (u ∷ us) (inr apart, h) = (apart, null-IsApart key state rows us h)
