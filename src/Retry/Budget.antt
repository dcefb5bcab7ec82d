-- ===== src/Retry/Budget.antt =====
-- libs/backend/go/observability/retry/budget.go: the retry budget that one execution shares. The fields
-- are atomic, so a method that decides by a compare-and-swap is one step; `Arm` is two steps, the swap
-- of `armed` and the store that sizes the balance.
pub mod Balance
pub mod Shared
pub mod Reports
use dmpf.Prelude.{Bool, true, false, ◌&&◌, ◌||◌, not, ◌/◌, if◌then◌else◌}
use dmpf.Prelude.Int.{ℤ, pos, pos_part, ltb_ℤ, leb_ℤ, ◌-ℤ◌}
use dmpf.Prelude.Word.{add64, sub64}

pub record Budget : Type 0 where
  pub remaining : ℤ
  pub armed : Bool
  pub reported : Bool

pub new_budget : Budget
new_budget = record { remaining = pos 0; armed = false; reported = false }

abbrev pub with_total : ℤ → Budget → Budget
with_total total b = if ltb_ℤ (pos 0) total then record b { remaining = total; armed = true } else b

-- The first step of `Arm`; true lets its caller take the second.
pub arm_swap : ℤ → Budget → Budget × Bool
arm_swap left b =
    if leb_ℤ left (pos 0)
    then (b, false)
    else if b.armed
    then (b, false)
    else (record b { armed = true }, true)

-- The second: half of a duration, which is positive here.
pub arm_store : ℤ → Budget → Budget
arm_store left b = record b { remaining = pos (pos_part left / 2) }

-- Both steps with nothing between.
abbrev pub arm : ℤ → Budget → Budget
unfolding arm_swap arm_store
arm left b = let (swapped, won) = arm_swap left b in if won then arm_store left swapped else swapped

pub debit : ℤ → Budget → Budget
debit spent b =
    if leb_ℤ spent (pos 0)
    then b
    else let next = sub64 b.remaining spent in
      record b { remaining = if ltb_ℤ next (pos 0) then pos 0 else next }

pub reserve : ℤ → Budget → Budget × Bool
reserve need b =
    if leb_ℤ need (pos 0) || not b.armed
    then (b, false)
    else if ltb_ℤ b.remaining need
    then (b, false)
    else (record b { remaining = sub64 b.remaining need }, true)

pub refund : ℤ → Budget → Budget
refund unspent b = record b { remaining = add64 b.remaining unspent }

pub settle : ℤ → ℤ → Budget → Budget
unfolding debit refund
settle reserved actual b =
    if ltb_ℤ reserved actual
    then debit (sub64 actual reserved) b
    else if ltb_ℤ actual reserved
    then refund (sub64 reserved actual) b
    else b

abbrev pub remaining_of : Budget → ℤ
remaining_of b = if b.armed then b.remaining else pos 0

pub report_exhaustion : Budget → Budget × Bool
report_exhaustion b =
    if not b.armed
    then (b, false)
    else if b.reported
    then (b, false)
    else (record b { reported = true }, true)

pub exhausted : Budget → Budget × Bool
exhausted b =
    if not b.armed || ltb_ℤ (pos 0) b.remaining
    then (b, false)
    else if b.reported
    then (b, false)
    else (record b { reported = true }, true)
