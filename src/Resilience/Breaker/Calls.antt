-- ===== src/Resilience/Breaker/Calls.antt =====
-- The calls of one dependency in flight: every interleaving of admissions and of outcomes, each of
-- which hands back the ticket that its admission granted.
use dmpf.Prelude.{
  ℕ, zero, suc, ◌+◌, ◌≤◌, ◌<◌, ◌≡◌, refl, Bool, ◌&&◌, List, [], ◌∷◌, Option, none, some, get_elem?,
  All, arith, if◌then◌else◌, eqb,
}
use dmpf.Prelude.Int.{ℤ}
use dmpf.Prelude.Float.{FloatOps}
use dmpf.Resilience.Breaker.{Admission, Breaker, Grant, granted, refused, admit, record_call}

pub remove_at {ℓ} : {A : Type ℓ} → ℕ → List A → List A
remove_at i [] = []
remove_at zero (x ∷ xs) = xs
remove_at (suc i) (x ∷ xs) = x ∷ remove_at i xs

-- How many of the tickets are probes of the cycle `g`.
unfoldable pub current : ℕ → List Admission → ℕ
current g [] = 0
current g (t ∷ ts) = let n = current g ts in if t.probe && eqb t.generation g then suc n else n

abbrev pub AtMost : ℕ → List Admission → Type 0
AtMost g = All (λ t. t.generation ≤ g)

pub AtMost-mono : (g h : ℕ) (ts : List Admission) → g ≤ h → AtMost g ts → AtMost h ts
AtMost-mono g h [] le a = tt
AtMost-mono g h (t ∷ ts) le a = (omega arith, AtMost-mono g h ts le a.1)

pub current-above : (g h : ℕ) (ts : List Admission) → g < h → AtMost g ts → current h ts ≡ 0
unfolding current
current-above g h [] lt a = refl
current-above g h (t ∷ ts) lt a = ground (arith, current-above g h ts lt a.1)

pub AtMost-remove_at : (g i : ℕ) (ts : List Admission) → AtMost g ts → AtMost g (remove_at i ts)
unfolding remove_at
AtMost-remove_at g i [] a = tt
AtMost-remove_at g zero (t ∷ ts) a = a.1
AtMost-remove_at g (suc i) (t ∷ ts) a = (a.0, AtMost-remove_at g i ts a.1)

abbrev pub weight : ℕ → Admission → ℕ
weight g t = if t.probe && eqb t.generation g then 1 else 0

pub current-remove_at :
    (g i : ℕ) (ts : List Admission) (t : Admission)
    → get_elem? ts i ≡ some t
    → (current g ts ≡ weight g t + current g (remove_at i ts))
unfolding current remove_at
current-remove_at g i [] t h = cc
current-remove_at g zero (u ∷ ts) t h = ground arith
current-remove_at g (suc i) (u ∷ ts) t h = ground (arith, current-remove_at g i ts t h)

pub AtMost-get_elem? :
    (g i : ℕ) (ts : List Admission) (t : Admission)
    → get_elem? ts i ≡ some t
    → AtMost g ts
    → t.generation ≤ g
AtMost-get_elem? g i [] t h a = cc
AtMost-get_elem? g zero (u ∷ ts) t h a = ground arith
AtMost-get_elem? g (suc i) (u ∷ ts) t h a = AtMost-get_elem? g i ts t h a.1

module _ (O : FloatOps) (Err : Type 0) (is_cancelled : Err → Bool) where
  pub record Flight : Type 0 where
    pub breaker : Breaker O Err is_cancelled
    pub tickets : List Admission

  -- A call arrives, or the i-th of those in flight returns with its error.
  pub data Move : Type 0 where
    arrives : (now : ℤ) → Move
    returns : (i : ℕ) (now : ℤ) (err : Option Err) → Move

  enter : Flight → Breaker O Err is_cancelled × Grant → Flight
  enter s (b, granted t) = record { breaker = b; tickets = t ∷ s.tickets }
  enter s (b, refused why) = record s { breaker = b }

  unfoldable pub step : Flight → Move → Flight
  unfolding enter remove_at
  step s (arrives now) = enter s (admit O Err is_cancelled now s.breaker)
  step s (returns i now err) = elim (get_elem? s.tickets i) [
    | none ↦ s
    | some t ↦ record {
      breaker = record_call O Err is_cancelled now t err s.breaker;
      tickets = remove_at i s.tickets;
    }
  ]

  unfoldable pub run : Flight → List Move → Flight
  unfolding step
  run s [] = s
  run s (m ∷ ms) = run (step s m) ms
