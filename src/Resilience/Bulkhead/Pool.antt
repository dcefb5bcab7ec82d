-- ===== src/Resilience/Bulkhead/Pool.antt =====
-- Any interleaving of the calls of one bulkhead.
use dmpf.Prelude.{
  ℕ, zero, suc, ◌+◌, ◌≤◌, ◌≡◌, refl, List, [], ◌∷◌, Option, none, some, arith, length,
}
use dmpf.Resilience.Bulkhead.{
  Bulkhead, BulkheadPolicy, new_bulkhead, send_admission, send_slot, receive_slot,
  receive_admission, Phase, has_admission, waiting, running, releasing, advance, give_up,
}

-- The calls that hold an admission.
pub record Pool : Type 0 where
  pub bulkhead : Bulkhead
  pub calls : List Phase

pub data Move : Type 0 where
  arrives : Move
  advances : ℕ → Move
  gives_up : ℕ → Move

-- One call moves by `f`, and the others stay.
pub move_at :
    (Phase → Bulkhead → Bulkhead × Option Phase) → ℕ → List Phase → Bulkhead → Bulkhead × List Phase
move_at f i [] b = (b, [])
move_at f zero (p ∷ ps) b =
    let (c, next) = f p b in elim next [ none ↦ (c, ps) | some q ↦ (c, q ∷ ps) ]
move_at f (suc i) (p ∷ ps) b = let (c, rest) = move_at f i ps b in (c, p ∷ rest)

moved : Bulkhead × List Phase → Pool
moved (b, calls) = record { bulkhead = b; calls = calls }

pub step : Pool → Move → Pool
unfolding send_admission move_at moved
step s arrives = elim (send_admission s.bulkhead) [
  | none ↦ s
  | some b ↦ record { bulkhead = b; calls = has_admission ∷ s.calls }
]
step s (advances i) = moved (move_at advance i s.calls s.bulkhead)
step s (gives_up i) = moved (move_at give_up i s.calls s.bulkhead)

pub run : Pool → List Move → Pool
unfolding step
run s [] = s
run s (m ∷ ms) = run (step s m) ms

abbrev pub slots_of : Phase → ℕ
slots_of running = 1
slots_of _ = 0

pub running_calls : List Phase → ℕ
running_calls [] = 0
running_calls (p ∷ ps) = slots_of p + running_calls ps

abbrev pub Balanced : ℕ → ℕ → Bulkhead → Type 0
Balanced pool queue b =
    (b.pool ≡ pool) × (b.queue ≡ queue) × (b.slots ≤ pool) × (b.admissions ≤ pool + queue)

pub record Inv (pool queue : ℕ) (s : Pool) : Type 0 where
  pub balanced : Balanced pool queue s.bulkhead
  pub admitted_calls : s.bulkhead.admissions ≡ length s.calls
  pub running_slots : s.bulkhead.slots ≡ running_calls s.calls

abbrev kept : Option Phase → ℕ
kept none = 0
kept (some p) = 1

abbrev slots_in : Option Phase → ℕ
slots_in none = 0
slots_in (some p) = slots_of p

-- What a move of one call may do to the channels: they change as much as the call.
abbrev IsFair : (Phase → Bulkhead → Bulkhead × Option Phase) → Type 0
IsFair f =
    (p : Phase) (b : Bulkhead) (pool queue : ℕ)
    → Balanced pool queue b
    → let (c, next) = f p b in
      Balanced pool queue c
      × (c.admissions + 1 ≡ b.admissions + kept next)
      × (c.slots + slots_of p ≡ b.slots + slots_in next)

advance-IsFair : IsFair advance
unfolding advance send_slot receive_slot receive_admission
advance-IsFair has_admission b pool queue h = ground arith
advance-IsFair waiting b pool queue h = ground arith
advance-IsFair running b pool queue h = ground arith
advance-IsFair releasing b pool queue h = ground arith

give_up-IsFair : IsFair give_up
unfolding give_up receive_admission
give_up-IsFair has_admission b pool queue h = ground arith
give_up-IsFair waiting b pool queue h = ground arith
give_up-IsFair running b pool queue h = ground arith
give_up-IsFair releasing b pool queue h = ground arith

move_at-fair :
    (f : Phase → Bulkhead → Bulkhead × Option Phase) (i : ℕ) (ps : List Phase) (b : Bulkhead)
    (pool queue : ℕ)
    → IsFair f
    → Balanced pool queue b
    → let (c, qs) = move_at f i ps b in
      Balanced pool queue c
      × (c.admissions + length ps ≡ b.admissions + length qs)
      × (c.slots + running_calls ps ≡ b.slots + running_calls qs)
unfolding move_at running_calls
move_at-fair f i [] b pool queue fair h = (h, refl, refl)
move_at-fair f zero (p ∷ ps) b pool queue fair h = ground (arith, fair p b pool queue h)
move_at-fair f (suc i) (p ∷ ps) b pool queue fair h =
    let (k, n, m) = move_at-fair f i ps b pool queue fair h in (k, omega arith, omega arith)

moved-Inv :
    (f : Phase → Bulkhead → Bulkhead × Option Phase) (i : ℕ) (s : Pool) (pool queue : ℕ)
    → IsFair f
    → Inv pool queue s
    → Inv pool queue (moved (move_at f i s.calls s.bulkhead))
unfolding moved
moved-Inv f i s pool queue fair v =
    let (k, n, m) = move_at-fair f i s.calls s.bulkhead pool queue fair v.balanced in
    record {
      balanced = k;
      admitted_calls = omega (arith, n, v.admitted_calls);
      running_slots = omega (arith, m, v.running_slots);
    }

step-Inv : (pool queue : ℕ) (s : Pool) (m : Move) → Inv pool queue s → Inv pool queue (step s m)
unfolding step send_admission running_calls
step-Inv pool queue s arrives v = ground arith
step-Inv pool queue s (advances i) v = moved-Inv advance i s pool queue advance-IsFair v
step-Inv pool queue s (gives_up i) v = moved-Inv give_up i s pool queue give_up-IsFair v

run-Inv :
    (pool queue : ℕ) (s : Pool) (ms : List Move) → Inv pool queue s → Inv pool queue (run s ms)
unfolding run
run-Inv pool queue s [] v = v
run-Inv pool queue s (m ∷ ms) v = run-Inv pool queue (step s m) ms (step-Inv pool queue s m v)

-- Of a new bulkhead, under any interleaving of its calls: never more calls than its pool have a slot at
-- once, never more than its pool and its queue are admitted, and the entries of its two channels are
-- exactly the calls that run and the calls that are admitted, so that no release ever blocks.
pub run_bulkhead-Inv :
    (p : BulkheadPolicy) (ms : List Move)
    → let b = new_bulkhead p in Inv b.pool b.queue (run (record { bulkhead = b; calls = [] }) ms)
unfolding new_bulkhead running_calls
run_bulkhead-Inv p ms =
    let b = new_bulkhead p in
    run-Inv b.pool b.queue (record { bulkhead = b; calls = [] }) ms
      (record {
        balanced = (refl, refl, omega arith, omega arith);
        admitted_calls = refl;
        running_slots = refl;
      })
