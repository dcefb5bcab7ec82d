-- ===== src/Resilience/Bulkhead.antt =====
-- libs/backend/go/observability/resilience/bulkhead.go: the pool of one dependency. The two channels are
-- semaphores, of which the model keeps the size and the number of entries; the counter of rejections and
-- the span are left out. The steps of `acquire` and of its release are functions of their own.
pub mod Pool
use dmpf.Prelude.{ℕ, ◌+◌, ◌-◌, Bool, true, false, Option, none, some, ltb, if◌then◌else◌}
use dmpf.Prelude.Int.{ℤ, pos, pos_part, leb_ℤ}

pub record BulkheadPolicy : Type 0 where
  pub pool : ℤ
  pub queue : ℤ

pub record Bulkhead : Type 0 where
  pub pool : ℕ
  pub queue : ℕ
  pub admissions : ℕ
  pub slots : ℕ

abbrev pub default_bulkhead_pool : ℤ
default_bulkhead_pool = pos 16

abbrev pub or_default : ℤ → ℤ → ℤ
or_default declared otherwise = if leb_ℤ declared (pos 0) then otherwise else declared

-- A queue that is not declared takes the size of the pool.
pub new_bulkhead : BulkheadPolicy → Bulkhead
new_bulkhead p =
    let pool = or_default p.pool default_bulkhead_pool in
    record {
      pool = pos_part pool;
      queue = pos_part (or_default p.queue pool);
      admissions = 0;
      slots = 0;
    }

-- A send that does not block: `none` where the channel is full.
pub send_admission : Bulkhead → Option Bulkhead
send_admission b =
    if ltb b.admissions (b.pool + b.queue)
    then some (record b { admissions = b.admissions + 1 })
    else none

pub send_slot : Bulkhead → Option Bulkhead
send_slot b = if ltb b.slots b.pool then some (record b { slots = b.slots + 1 }) else none

-- A receive: `none` where the channel is empty and the receiver blocks.
pub receive_admission : Bulkhead → Option Bulkhead
receive_admission b =
    if ltb 0 b.admissions then some (record b { admissions = b.admissions - 1 }) else none

pub receive_slot : Bulkhead → Option Bulkhead
receive_slot b = if ltb 0 b.slots then some (record b { slots = b.slots - 1 }) else none

-- Where a call stands between two operations on the channels: it has its admission; its timer runs; its
-- slot is taken and the call goes on; its slot is given back and its admission is not yet.
pub data Phase : Type 0 where
  has_admission waiting running releasing : Phase

-- The next operation of a call: the phase that follows, or `none` once it is over; a call that can go no
-- further stays where it is.
pub advance : Phase → Bulkhead → Bulkhead × Option Phase
unfolding send_slot receive_slot receive_admission
advance has_admission b = elim (send_slot b) [
  | some c ↦ (c, some running)
  | none ↦ (b, some waiting)
]
advance waiting b = elim (send_slot b) [ some c ↦ (c, some running) | none ↦ (b, some waiting) ]
advance running b = elim (receive_slot b) [
  | some c ↦ (c, some releasing)
  | none ↦ (b, some running)
]
advance releasing b = elim (receive_admission b) [ some c ↦ (c, none) | none ↦ (b, some releasing) ]

-- The timer fires or the context ends: a call that waits gives its admission back and is refused.
pub give_up : Phase → Bulkhead → Bulkhead × Option Phase
unfolding receive_admission
give_up waiting b = elim (receive_admission b) [ some c ↦ (c, none) | none ↦ (b, some waiting) ]
give_up phase b = (b, some phase)
