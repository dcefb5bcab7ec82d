-- ===== src/Prelude/Maps.antt =====
-- Go's maps as association lists: at most the first entry of a key is read, and a write replaces it.
use mathlib.Core.Path.{◌≡◌, refl}
use mathlib.Core.Option.{Option, none, some}
use mathlib.Core.List.{List, [], ◌∷◌}
use native.Mathlib.Omega.{arith}
use dmpf.Prelude.Tests.{Eq, ◌==◌, if◌then◌else◌, beq_refl}

module _ {ℓ κ} {K : Type ℓ} {V : Type κ} ⦃e : Eq K⦄ where
  unfoldable pub lookup : K → List (K × V) → Option V
  lookup key [] = none
  lookup key ((k, v) ∷ rest) = let later = lookup key rest in if k == key then some v else later

  unfoldable pub insert : K → V → List (K × V) → List (K × V)
  insert key new [] = (key, new) ∷ []
  insert key new ((k, old) ∷ rest) =
      let later = insert key new rest in if k == key then (key, new) ∷ rest else (k, old) ∷ later

  pub lookup-insert :
      (written read : K) (new : V) (entries : List (K × V))
      → lookup read (insert written new entries)
        ≡ (if written == read then some new else lookup read entries)
  unfolding lookup insert
  lookup-insert written read new [] = refl
  lookup-insert written read new ((k, old) ∷ rest) =
      let later = lookup-insert written read new rest in
      ground (arith, later, e.equals_iff written read, e.equals_iff k written, e.equals_iff k read)

  pub lookup-insert_self : (k : K) (v : V) (m : List (K × V)) → lookup k (insert k v m) ≡ some v
  lookup-insert_self k v m = ground (arith, lookup-insert k k v m, beq_refl k)

  pub lookup-nil : (k : K) → lookup k [] ≡ none
  unfolding lookup
  lookup-nil k = refl

  -- Go's delete.
  unfoldable pub remove : K → List (K × V) → List (K × V)
  remove key [] = []
  remove key ((k, v) ∷ rest) =
      let later = remove key rest in if k == key then later else (k, v) ∷ later

  pub lookup-remove :
      (removed read : K) (entries : List (K × V))
      → lookup read (remove removed entries)
        ≡ (if removed == read then none else lookup read entries)
  unfolding lookup remove
  lookup-remove removed read [] = ground arith
  lookup-remove removed read ((k, v) ∷ rest) =
      let later = lookup-remove removed read rest in
      ground (arith, later, e.equals_iff removed read, e.equals_iff k removed, e.equals_iff k read)
