-- ===== src/Orders/Snapshots.antt =====
-- The persisted form of an order holds all of it, and its equality is the equality of what it holds.
use dmpf.Prelude.{◌≡◌, refl, ◌↔◌, List, [], ◌∷◌, true, arith}
use text.Mathlib.TextEquality.{eq_iff}
use dmpf.Prelude.Int.{eq_of_parts}
use dmpf.Orders.{Order, Item, Snapshot, snapshot, from_snapshot, equal, same_item, same_items}

same_item_iff : (a b : Item) → (same_item a b ≡ true) ↔ (a ≡ b)
same_item_iff a b = ground (arith, eq_iff a.sku b.sku, eq_of_parts a.quantity b.quantity)

same_items_iff : (xs ys : List Item) → (same_items xs ys ≡ true) ↔ (xs ≡ ys)
unfolding same_items
same_items_iff [] [] = ground arith
same_items_iff [] (b ∷ ys) = ground arith
same_items_iff (a ∷ xs) [] = ground arith
same_items_iff (a ∷ xs) (b ∷ ys) = ground (arith, same_item_iff a b, same_items_iff xs ys)

-- An order is rebuilt from its snapshot as it was, and two snapshots compare equal exactly when they are
-- the same, the order of their items included.
pub from_snapshot-snapshot :
    (o : Order) (s t : Snapshot) → (from_snapshot (snapshot o) ≡ o) × ((equal s t ≡ true) ↔ (s ≡ t))
unfolding from_snapshot snapshot equal
from_snapshot-snapshot o s t = (
  refl,
  ground (
    arith,
    eq_iff s.id t.id,
    eq_of_parts s.item_limit t.item_limit,
    same_items_iff s.items t.items,
  ),
)
