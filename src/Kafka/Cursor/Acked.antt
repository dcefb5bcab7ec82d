-- ===== src/Kafka/Cursor/Acked.antt =====
-- offsets.go: the acknowledged records in front of a cursor.
use dmpf.Prelude.{
  ◌≡◌, refl, inl, inr, false, arith, List, [], ◌∷◌, ◌++◌, Option, none, some, if◌then◌else◌, map,
  Bool-cases,
}
use dmpf.Kafka.Cursor.{Cursor, pop_acked, next_contiguous}

module _ {R : Type 0} where
  -- The records of the entries in front of the first one that is not acknowledged, and the rest.
  abbrev pub acked_prefix : Cursor R → List R
  acked_prefix [] = []
  acked_prefix (t ∷ c) = if t.acked then t.record_of ∷ acked_prefix c else []

  abbrev pub after_prefix : Cursor R → Cursor R
  after_prefix [] = []
  after_prefix (t ∷ c) = if t.acked then after_prefix c else t ∷ c

  abbrev pub last_of : Option R → List R → Option R
  last_of otherwise [] = otherwise
  last_of otherwise (r ∷ rs) = last_of (some r) rs

  abbrev pub records : Cursor R → List R
  records = map (λ t. t.record_of)

  pop_acked_lem :
      (otherwise : Option R) (c : Cursor R)
      → pop_acked otherwise c ≡ (last_of otherwise (acked_prefix c), after_prefix c)
  unfolding pop_acked
  pop_acked_lem otherwise [] = refl
  pop_acked_lem otherwise (t ∷ c) = ground (arith, pop_acked_lem (some t.record_of) c)

  -- The offset that is committed is that of the last record in front of the first one still pending, none
  -- where the head is pending; all those records leave the cursor, and nothing else does.
  pub next_contiguous_lem :
      (c : Cursor R)
      → (next_contiguous c ≡ (last_of none (acked_prefix c), after_prefix c))
        × (records c ≡ acked_prefix c ++ records (after_prefix c))
  unfolding next_contiguous
  next_contiguous_lem c = (pop_acked_lem none c, parts c)
    where
      parts : (c : Cursor R) → records c ≡ acked_prefix c ++ records (after_prefix c)
      parts [] = refl
      parts (t ∷ c) = ground (arith, parts c)

  pub last_of-append :
      (before : Option R) (xs ys : List R)
      → last_of before (xs ++ ys) ≡ last_of (last_of before xs) ys
  last_of-append before [] ys = refl
  last_of-append before (x ∷ xs) ys = last_of-append (some x) xs ys

  -- Nothing in front is acknowledged.
  abbrev pub IsWaiting : Cursor R → Type 0
  IsWaiting [] = Unit
  IsWaiting (t ∷ c) = t.acked ≡ false

  pub after_prefix-IsWaiting : (c : Cursor R) → IsWaiting (after_prefix c)
  after_prefix-IsWaiting [] = tt
  after_prefix-IsWaiting (t ∷ c) = elim (Bool-cases t.acked) [
    | inl acked ↦ rw acked (after_prefix-IsWaiting c)
    | inr halted ↦ rw halted refl
  ]
