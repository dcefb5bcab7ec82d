-- ===== src/Kafka/Cursor.antt =====
-- libs/backend/go/kafka/offsets.go: the contiguous acknowledgement of one partition.
-- `R` is the record of the client library, of which the cursor reads the offset.
pub mod Acked
pub mod Prefix
use dmpf.Prelude.{
  ℕ, Bool, true, false, List, [], ◌∷◌, ◌++◌, Option, none, some, if◌then◌else◌, length,
}
use dmpf.Prelude.Int.{ℤ, eqb_ℤ}

module _ (R : Type 0) where
  pub record Tracked : Type 0 where
    pub record_of : R
    pub acked : Bool

abbrev pub Cursor : Type 0 → Type 0
Cursor R = List (Tracked R)

module _ {R : Type 0} where
  pub track : R → Cursor R → Cursor R
  track r c = c ++ record { record_of = r; acked = false } ∷ []

  module _ (offset_of : R → ℤ) where
    pub mark : ℤ → Cursor R → Cursor R
    mark offset [] = []
    mark offset (t ∷ c) =
        let rest = mark offset c in
        if eqb_ℤ (offset_of t.record_of) offset then record t { acked = true } ∷ c else t ∷ rest

  -- The loop over the acknowledged prefix: its last record, if any, and what is left.
  pub pop_acked : Option R → Cursor R → Option R × Cursor R
  pop_acked last [] = (last, [])
  pop_acked last (t ∷ c) =
      let rest = pop_acked (some t.record_of) c in if t.acked then rest else (last, t ∷ c)

  pub next_contiguous : Cursor R → Option R × Cursor R
  unfolding pop_acked
  next_contiguous c = pop_acked none c

  abbrev pub pending : Cursor R → ℕ
  pending = length
