-- ===== src/Retry/Budget/Shared.antt =====
-- The dependencies of one execution share its budget: every interleaving of their arming, reservations,
-- settlements and debits.
use dmpf.Prelude.{
  ℕ, zero, suc, ◌+◌, ◌≤◌, ◌<◌, ◌≡◌, refl, Bool, true, false, List, [], ◌∷◌, Option, none, some,
  arith, inl, inr, Option-cases, All,
}
use dmpf.Prelude.Int.{ℤ, pos, negsuc, pos_part, neg_part, ◌≤ℤ◌}
use dmpf.Prelude.Word.{half_range, IsInt64}
use dmpf.Retry.Budget.{Budget, new_budget, arm_swap, arm_store, debit, reserve, settle}
use dmpf.Retry.Budget.Balance.{debit_exact, settle_exact, sub64_exact}

-- `claims` are the reservations not yet settled, `arming` the deadline of the dependency that won the
-- swap of `Arm` and has not stored yet, `sized` what that store sized the balance to.
pub record Shared : Type 0 where
  pub budget : Budget
  pub claims : List ℕ
  pub arming : Option ℤ
  pub sized : ℕ

pub data Move : Type 0 where
  arms : (left : ℤ) → Move
  stores : Move
  reserves : (need : ℤ) → Move
  settles : (i : ℕ) (cost : ℤ) → Move
  debits : (spent : ℤ) → Move

pub total : List ℕ → ℕ
total [] = 0
total (c ∷ cs) = c + total cs

pub take_at : ℕ → List ℕ → Option (ℕ × List ℕ)
take_at i [] = none
take_at zero (c ∷ cs) = some (c, cs)
take_at (suc i) (c ∷ cs) = elim (take_at i cs) [ none ↦ none | some (d, ds) ↦ some (d, c ∷ ds) ]

won : Shared → ℤ → Budget × Bool → Shared
won s left (b, true) = record s { budget = b; arming = some left }
won s left (b, false) = record s { budget = b }

claimed : Shared → ℤ → Budget × Bool → Shared
claimed s need (b, true) = record s { budget = b; claims = pos_part need ∷ s.claims }
claimed s need (b, false) = record s { budget = b }

stored : Shared → Option ℤ → Shared
stored s none = s
stored s (some left) =
    let b = arm_store left s.budget in
    record s { budget = b; arming = none; sized = pos_part b.remaining }

settled : Shared → ℤ → Option (ℕ × List ℕ) → Shared
settled s cost none = s
settled s cost (some (c, cs)) = record s { budget = settle (pos c) cost s.budget; claims = cs }

pub step : Shared → Move → Shared
unfolding won claimed stored settled
step s (arms left) = won s left (arm_swap left s.budget)
step s stores = stored s s.arming
step s (reserves need) = claimed s need (reserve need s.budget)
step s (settles i cost) = settled s cost (take_at i s.claims)
step s (debits spent) = record s { budget = debit spent s.budget }

pub run : Shared → List Move → Shared
unfolding step
run s [] = s
run s (m ∷ ms) = run (step s m) ms

-- Every duration of a move is an int64, and what an attempt cost is not negative.
abbrev pub Fits : Move → Type 0
Fits (arms left) = IsInt64 left
Fits stores = Unit {0}
Fits (reserves need) = IsInt64 need
Fits (settles i cost) = IsInt64 cost × (pos 0 ≤ℤ cost)
Fits (debits spent) = IsInt64 spent

pub record Inv (s : Shared) : Type 0 where
  pub solvent : neg_part s.budget.remaining ≡ 0
  pub covered : pos_part s.budget.remaining + total s.claims ≤ s.sized
  pub in_range : s.sized < half_range
  pub unarmed : s.budget.armed ≡ false → (s.sized ≡ 0) × (s.arming ≡ none)
  pub storing : (left : ℤ) → s.arming ≡ some left → (s.sized ≡ 0) × IsInt64 left

total-take_at :
    (i : ℕ) (cs : List ℕ) {d : ℕ} {ds : List ℕ}
    → take_at i cs ≡ some (d, ds)
    → total cs ≡ d + total ds
unfolding take_at total
total-take_at i [] h = cc
total-take_at zero (c ∷ cs) h = ground arith
total-take_at (suc i) (c ∷ cs) {d} {ds} h = elim (Option-cases (take_at i cs)) [
  | inl gone ↦ absurd (ground arith)
  | inr ((e, es), found) ↦ ground (arith, total-take_at i cs found)
]

module _ (s : Shared) (v : Inv s) where
  nonneg : s.budget.remaining ≡ pos (pos_part s.budget.remaining)
  nonneg = ground (arith, v.solvent)

  arms-Inv : (left : ℤ) → IsInt64 left → Inv (step s (arms left))
  unfolding step arm_swap
  arms-Inv left h = ground (arith, nonneg, v.unarmed)

  stored-Inv : (waits : Option ℤ) → s.arming ≡ waits → Inv (stored s waits)
  unfolding stored arm_store
  stored-Inv none e = v
  stored-Inv (some left) e = ground (arith, v.storing left e)

  stores-Inv : Inv (step s stores)
  unfolding step
  stores-Inv = stored-Inv s.arming refl

  reserves-Inv : (need : ℤ) → IsInt64 need → Inv (step s (reserves need))
  unfolding step reserve total
  reserves-Inv (pos n) h =
      ground (arith, nonneg, sub64_exact (pos_part s.budget.remaining) n, v.storing)
  reserves-Inv (negsuc n) h = ground (arith, nonneg, v.storing)

  settles-Inv : (i : ℕ) (cost : ℤ) → IsInt64 cost × (pos 0 ≤ℤ cost) → Inv (step s (settles i cost))
  unfolding step
  settles-Inv i (negsuc n) h = absurd (omega (arith, h.1))
  settles-Inv i (pos cost) h = elim (Option-cases (take_at i s.claims)) [
    | inl missing ↦ rw (missing, step) v
    | inr ((c, cs), found) ↦
        rw (found, step)
          (ground (
            arith,
            total-take_at i s.claims found,
            settle_exact s.budget (pos_part s.budget.remaining) nonneg (omega arith) c cost,
          ))
  ]

  debits-Inv : (spent : ℤ) → IsInt64 spent → Inv (step s (debits spent))
  unfolding step
  debits-Inv spent h =
      ground (arith, debit_exact s.budget (pos_part s.budget.remaining) nonneg (omega arith) spent)

step-Inv : (s : Shared) (m : Move) → Fits m → Inv s → Inv (step s m)
step-Inv s (arms left) h v = arms-Inv s v left h
step-Inv s stores h v = stores-Inv s v
step-Inv s (reserves need) h v = reserves-Inv s v need h
step-Inv s (settles i cost) h v = settles-Inv s v i cost h
step-Inv s (debits spent) h v = debits-Inv s v spent h

run-Inv : (s : Shared) (ms : List Move) → All Fits ms → Inv s → Inv (run s ms)
unfolding run
run-Inv s [] h v = v
run-Inv s (m ∷ ms) h v = run-Inv (step s m) ms h.1 (step-Inv s m h.0 v)

abbrev pub start : Shared
start = record { budget = new_budget; claims = []; arming = none; sized = 0 }

-- From an unarmed budget, under any interleaving of the dependencies and whatever int64 durations they
-- pass, the actual cost of a settlement not being negative: the balance is never negative, the balance
-- and all reservations not yet settled together never exceed what the first failure sized, an unarmed
-- budget has nothing, and nothing is reserved or spent between the two steps of arming.
pub run_shared-Inv : (ms : List Move) → All Fits ms → Inv (run start ms)
unfolding new_budget total
run_shared-Inv ms h = run-Inv start ms h (ground arith)
