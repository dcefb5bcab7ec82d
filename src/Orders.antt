-- ===== src/Orders.antt =====
-- apps/backend/orders/domain: the Order aggregate with its two decisions, AddItem and Place.
pub mod Replay
pub mod Codecs
pub mod Service
pub mod Bounds
pub mod Snapshots
use dmpf.Prelude.{
  ℕ, ◌+◌, String, Bool, ◌&&◌, List, [], ◌∷◌, ◌++◌, true, false, length, eqb, ◌==◌, string_eq,
  if◌then◌else◌, not,
}
use dmpf.Prelude.Int.{ℤ, pos, ltb_ℤ, eqb_ℤ}
use dmpf.Prelude.Decimal.{itoa}
use dmpf.Domain.{Decision, Detail, accept, refuse, decide_over, events_of}

pub record Item : Type 0 where
  pub sku : String
  pub quantity : ℤ

pub data Status : Type 0 where
  open_status placed : Status

pub record AddItem : Type 0 where
  pub sku : String
  pub quantity : ℤ
  pub at : ℤ

pub record PlaceOrder : Type 0 where
  pub at : ℤ

-- The two event types of the context, `ItemAdded` and `OrderPlaced`.
pub data Event : Type 0 where
  item_added : (order : String) (sku : String) (quantity : ℤ) (at : ℤ) → Event
  order_placed : (order : String) (items : ℕ) (at : ℤ) → Event

abbrev pub event_name : Event → String
event_name (item_added o s q t) = "orders.item-added"
event_name (order_placed o n t) = "orders.order-placed"

pub record ItemAccepted : Type 0 where
  pub order : String
  pub items : ℤ

pub record PlacedResponse : Type 0 where
  pub order : String

pub record Order : Type 0 where
  pub id : String
  pub status : Status
  pub items : List Item
  pub item_limit : ℤ

unfoldable pub new_order : String → ℤ → Order
new_order id limit = record { id = id; status = open_status; items = []; item_limit = limit }

pub record Snapshot : Type 0 where
  pub id : String
  pub status : Status
  pub item_limit : ℤ
  pub items : List Item

unfoldable pub from_snapshot : Snapshot → Order
from_snapshot s = record {
  id = s.id;
  status = s.status;
  items = s.items;
  item_limit = s.item_limit;
}

unfoldable pub snapshot : Order → Snapshot
snapshot o = record { id = o.id; status = o.status; item_limit = o.item_limit; items = o.items }

abbrev pub is_open : Status → Bool
is_open open_status = true
is_open placed = false

abbrev pub same_status : Status → Status → Bool
same_status open_status open_status = true
same_status placed placed = true
same_status _ _ = false

abbrev pub same_item : Item → Item → Bool
same_item a b = a.sku == b.sku && eqb_ℤ a.quantity b.quantity

-- slices.Equal
pub same_items : List Item → List Item → Bool
same_items [] [] = true
same_items (a ∷ xs) (b ∷ ys) = same_item a b && same_items xs ys
same_items _ _ = false

pub equal : Snapshot → Snapshot → Bool
unfolding same_items
equal s t =
    s.id == t.id
    && same_status s.status t.status
    && eqb_ℤ s.item_limit t.item_limit
    && same_items s.items t.items

abbrev clone : Order → Order
clone o = record { id = o.id; status = o.status; items = o.items; item_limit = o.item_limit }

abbrev pub code_item_limit_exceeded : String
code_item_limit_exceeded = "orders/item-limit-exceeded"

abbrev pub code_order_empty : String
code_order_empty = "orders/empty-order"

abbrev pub code_order_not_open : String
code_order_not_open = "orders/order-not-open"

abbrev pub limit_details : ℤ → ℕ → List Detail
limit_details limit attempted =
    record { key = "limit"; value = itoa limit }
    ∷ record { key = "attempted"; value = itoa (pos attempted) }
    ∷ []

unfoldable pub decide_add_item : AddItem → Order → Order × Decision Event ItemAccepted
decide_add_item cmd next =
    let attempted = length next.items + 1 in
    let items = next.items ++ record { sku = cmd.sku; quantity = cmd.quantity } ∷ [] in
    if not (is_open next.status)
    then (next, refuse code_order_not_open "order is not open" [])
    else if ltb_ℤ next.item_limit (pos attempted)
    then (
      next,
      refuse code_item_limit_exceeded "item limit exceeded"
          (limit_details next.item_limit attempted),
    )
    else (
      record next { items = items },
      accept (record { order = next.id; items = pos (length items) })
          (item_added next.id cmd.sku cmd.quantity cmd.at ∷ []),
    )

unfoldable pub add_item : AddItem → Order → Order × Decision Event ItemAccepted
unfolding decide_add_item decide_over
add_item cmd o = decide_over o clone (decide_add_item cmd)

decide_place : PlaceOrder → Order → Order × Decision Event PlacedResponse
decide_place cmd next =
    if not (is_open next.status)
    then (next, refuse code_order_not_open "order is not open" [])
    else if eqb (length next.items) 0
    then (next, refuse code_order_empty "order has no items" [])
    else (
      record next { status = placed },
      accept (record { order = next.id }) (order_placed next.id (length next.items) cmd.at ∷ []),
    )

pub place : PlaceOrder → Order → Order × Decision Event PlacedResponse
unfolding decide_place decide_over
place cmd o = decide_over o clone (decide_place cmd)

-- The commands of the aggregate, in the order in which they reach it.
pub data Command : Type 0 where
  add : AddItem → Command
  place_it : PlaceOrder → Command

-- What a command leaves, and the events that it emits.
pub step : Order → Command → Order × List Event
unfolding add_item place
step o (add cmd) = let (next, d) = add_item cmd o in (next, events_of d)
step o (place_it cmd) = let (next, d) = place cmd o in (next, events_of d)

pub run : Order → List Command → Order × List Event
unfolding step
run o [] = (o, [])
run o (c ∷ cs) = let (next, es) = step o c in let (last, rest) = run next cs in (last, es ++ rest)
