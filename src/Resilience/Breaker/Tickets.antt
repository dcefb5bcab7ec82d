-- ===== src/Resilience/Breaker/Tickets.antt =====
-- The half-open breaker never has more probes in flight than its policy allows.
use dmpf.Prelude.{
  ℕ, suc, ◌+◌, ◌≤◌, ◌<◌, ◌≡◌, ◌≢◌, Bool, List, [], ◌∷◌, Option, none, some, arith, subst, length,
  get_elem?, Option-cases, inl, inr,
}
use dmpf.Prelude.Int.{ℤ, pos, ◌≤ℤ◌, ◌+ℤ◌, ◌-ℤ◌}
use native.Mathlib.Nat.{add-zero}
use dmpf.Prelude.Word.{full_range}
use dmpf.Prelude.Float.{FloatOps}
use dmpf.Resilience.Breaker.{
  Admission, Breaker, BreakerPolicy, half_open, admit, record_call, new_breaker, probes,
}
use dmpf.Resilience.Breaker.Calls.{
  Flight, Move, arrives, returns, step, run, current, AtMost, AtMost-mono, current-above,
  AtMost-remove_at, current-remove_at, AtMost-get_elem?, weight, remove_at,
}

module _ (O : FloatOps) (Err : Type 0) (is_cancelled : Err → Bool) where
  -- `n` bounds the transitions so far.
  pub record Inv (n : ℕ) (s : Flight O Err is_cancelled) : Type 0 where
    pub generations : s.breaker.generation ≤ n
    pub issued : AtMost s.breaker.generation s.tickets
    pub counted :
        s.breaker.state ≡ half_open
        → s.breaker.probing ≡ pos (current s.breaker.generation s.tickets)
    pub idle :
        s.breaker.state ≢ half_open
        → (s.breaker.probing ≡ pos 0) × (current s.breaker.generation s.tickets ≡ 0)
    pub capped : s.breaker.probing ≤ℤ probes O Err is_cancelled s.breaker

  arrives-Inv :
      (n : ℕ) (s : Flight O Err is_cancelled) (now : ℤ)
      → suc n < full_range
      → Inv n s
      → Inv (suc n) (step O Err is_cancelled s (arrives now))
  unfolding step admit probes ◌+ℤ◌ current
  arrives-Inv n s now h v = ground (
    arith,
    AtMost-mono s.breaker.generation (suc s.breaker.generation) s.tickets,
    current-above s.breaker.generation (suc s.breaker.generation) s.tickets,
  )

  -- What a returning call leaves of the counters, for its ticket `t` and the tickets `ts` that stay.
  outcome-Inv :
      (n : ℕ) (b : Breaker O Err is_cancelled) (t : Admission) (ts : List Admission) (now : ℤ)
      (err : Option Err)
      → suc n < full_range
      → b.generation ≤ n
      → t.generation ≤ b.generation
      → AtMost b.generation ts
      → (b.state ≡ half_open → b.probing ≡ pos (weight b.generation t + current b.generation ts))
      → (b.state ≢ half_open
          → (b.probing ≡ pos 0) × (weight b.generation t + current b.generation ts ≡ 0))
      → b.probing ≤ℤ probes O Err is_cancelled b
      → Inv (suc n) (record { breaker = record_call O Err is_cancelled now t err b; tickets = ts })
  unfolding record_call probes ◌+ℤ◌ ◌-ℤ◌
  outcome-Inv n b t ts now none h g u a c i k = ground (
    arith,
    AtMost-mono b.generation (suc b.generation) ts,
    current-above b.generation (suc b.generation) ts,
  )
  outcome-Inv n b t ts now (some err) h g u a c i k = ground (
    arith,
    AtMost-mono b.generation (suc b.generation) ts,
    current-above b.generation (suc b.generation) ts,
  )

  returns-Inv :
      (n : ℕ) (s : Flight O Err is_cancelled) (i : ℕ) (now : ℤ) (err : Option Err)
      → suc n < full_range
      → Inv n s
      → Inv (suc n) (step O Err is_cancelled s (returns i now err))
  unfolding step
  returns-Inv n s i now err h v = elim (Option-cases (get_elem? s.tickets i)) [
    | inl missing ↦
        rw (missing, step)
          (record {
            generations = omega arith;
            issued = v.issued;
            counted = v.counted;
            idle = v.idle;
            capped = v.capped;
          })
    | inr (t, found) ↦
        let split = current-remove_at s.breaker.generation i s.tickets t found in
        rw (found, step)
          (outcome-Inv n s.breaker t (remove_at i s.tickets) now err h v.generations
            (AtMost-get_elem? s.breaker.generation i s.tickets t found v.issued)
            (AtMost-remove_at s.breaker.generation i s.tickets v.issued)
            (λ p. rw (← split) (v.counted p)) (λ p. rw (← split) (v.idle p)) v.capped)
  ]

  step-Inv :
      (n : ℕ) (s : Flight O Err is_cancelled) (m : Move O Err is_cancelled)
      → suc n < full_range
      → Inv n s
      → Inv (suc n) (step O Err is_cancelled s m)
  step-Inv n s (arrives now) h v = arrives-Inv n s now h v
  step-Inv n s (returns i now err) h v = returns-Inv n s i now err h v

  run-Inv :
      (n : ℕ) (s : Flight O Err is_cancelled) (ms : List (Move O Err is_cancelled))
      → n + length ms < full_range
      → Inv n s
      → Inv (n + length ms) (run O Err is_cancelled s ms)
  unfolding run
  run-Inv n s [] h v = rw (add-zero n) v
  run-Inv n s (m ∷ ms) h v =
      subst (λ k. Inv k (run O Err is_cancelled (step O Err is_cancelled s m) ms)) (omega arith)
        (run-Inv (suc n) (step O Err is_cancelled s m) ms (omega arith)
          (step-Inv n s m (omega arith) v))

  abbrev pub start : BreakerPolicy O Err is_cancelled → Flight O Err is_cancelled
  start p = record { breaker = new_breaker O Err is_cancelled p; tickets = [] }

  -- From a new breaker, after fewer than 2^64 arrivals and returns in any interleaving: while the
  -- breaker is half-open its counter is exactly the number of probes of the current cycle in flight,
  -- outside half-openness both are zero, and the counter never passes the number of probes declared.
  pub run-start-Inv :
      (p : BreakerPolicy O Err is_cancelled) (ms : List (Move O Err is_cancelled))
      → length ms < full_range
      → Inv (length ms) (run O Err is_cancelled (start p) ms)
  unfolding new_breaker current probes
  run-start-Inv p ms h =
      subst (λ k. Inv k (run O Err is_cancelled (start p) ms)) (omega arith)
        (run-Inv 0 (start p) ms (omega arith) (ground arith))
