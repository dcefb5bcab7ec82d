-- ===== src/Resilience/Breaker/Decisions.antt =====
-- When the breaker refuses, when it opens and when it closes.
use dmpf.Prelude.{
  ◌+◌, ◌%◌, ◌≡◌, refl, ◌≢◌, ◌⊎◌, Bool, true, false, List, [], ◌∷◌, ◌++◌, Option, none, some, arith,
  length, All, All-append, Bool-cases, inl, inr, subst, sym,
}
use dmpf.Prelude.Int.{ℤ, pos, ◌≤ℤ◌, ◌<ℤ◌, ◌+ℤ◌, ◌-ℤ◌, -ℤ_parts, leb_ℤ}
use dmpf.Prelude.Word.{full_range}
use dmpf.Prelude.Float.{FloatOps}
use dmpf.Resilience.Breaker.{
  Admission, Observation, Breaker, half_open, closed, open_state, granted, refused, admit,
  record_call, record_sample, probes, has_failed, prune, kept_after, failures,
}

kept_after-All : (edge : ℤ) (w : List Observation) → All (λ o. edge <ℤ o.at) (kept_after edge w)
unfolding kept_after
kept_after-All edge [] = tt
kept_after-All edge (o ∷ w) = ground (arith, kept_after-All edge w)

module _ (O : FloatOps) (Err : Type 0) (is_cancelled : Err → Bool) where
  open O use {of_int, div, geb}

  -- Every branch of admit: within the cooldown an open breaker refuses and is unchanged; past it, it
  -- starts a half-open cycle under a new generation and grants its first probe; a half-open breaker
  -- refuses unchanged when its probes are in flight and otherwise grants one more; a closed breaker
  -- grants every call and is unchanged.
  pub admit_cases :
      (now : ℤ) (b : Breaker O Err is_cancelled)
      → (b.state ≡ open_state
          → now -ℤ b.opened_at <ℤ b.policy.cooldown
          → admit O Err is_cancelled now b ≡ (b, refused "is open"))
        × (b.state ≡ open_state
            → b.policy.cooldown ≤ℤ now -ℤ b.opened_at
            → b.probing ≡ pos 0
            → admit O Err is_cancelled now b ≡ (
              record b {
                state = half_open;
                generation = (b.generation + 1) % full_range;
                probing = pos 1;
              },
              granted (record { probe = true; generation = (b.generation + 1) % full_range }),
            ))
        × (b.state ≡ half_open
            → probes O Err is_cancelled b ≤ℤ b.probing
            → admit O Err is_cancelled now b
              ≡ (b, refused "is half-open and its probes are in flight"))
        × (b.state ≡ half_open
            → b.probing <ℤ probes O Err is_cancelled b
            → admit O Err is_cancelled now b ≡ (
              record b { probing = b.probing +ℤ pos 1 },
              granted (record { probe = true; generation = b.generation }),
            ))
        × (b.state ≡ closed
            → admit O Err is_cancelled now b
              ≡ (b, granted (record { probe = false; generation = b.generation })))
  unfolding admit probes ◌+ℤ◌
  admit_cases now b = (
    (λ p q. ground arith),
    (λ p q r. ground arith),
    (λ p q. ground arith),
    (λ p q. ground arith),
    (λ p. ground arith),
  )

  -- An outcome that is not of the current cycle decides nothing: a probe of another generation, a probe
  -- that returns when the breaker is no longer half-open, and a call admitted outside half-openness that
  -- returns within it all leave the breaker as it is, whatever their error.
  pub record_call_stale :
      (now : ℤ) (t : Admission) (err : Option Err) (b : Breaker O Err is_cancelled)
      → ((t.probe ≡ true) × (t.generation ≢ b.generation))
        ⊎ ((t.probe ≡ true) × (b.state ≢ half_open))
        ⊎ ((t.probe ≡ false) × (b.state ≡ half_open))
      → record_call O Err is_cancelled now t err b ≡ b
  unfolding record_call
  record_call_stale now t none b h = ground arith
  record_call_stale now t (some err) b h = ground arith

  -- A current probe of a half-open breaker decides alone: its failure opens the breaker from now on,
  -- its success closes it, both with an empty window, no probe in flight and a new generation; the
  -- caller's cancellation only gives its slot back.
  pub record_call_probe :
      (now : ℤ) (t : Admission) (err : Option Err) (b : Breaker O Err is_cancelled)
      → t.probe ≡ true
      → t.generation ≡ b.generation
      → b.state ≡ half_open
      → pos 0 <ℤ b.probing
      → let decided = record b {
        generation = (b.generation + 1) % full_range;
        probing = pos 0;
        window = [];
      } in
        (err ≡ none
          → record_call O Err is_cancelled now t err b ≡ record decided { state = closed })
        × ((e : Err)
            → err ≡ some e
            → is_cancelled e ≡ false
            → has_failed O Err is_cancelled b err ≡ true
            → record_call O Err is_cancelled now t err b
              ≡ record decided { state = open_state; opened_at = now })
        × ((e : Err)
            → err ≡ some e
            → is_cancelled e ≡ true
            → record_call O Err is_cancelled now t err b
              ≡ record b { probing = b.probing -ℤ pos 1 })
  unfolding record_call
  record_call_probe now t none b p g h k = ((λ e. ground arith), (λ e q. cc), (λ e q. cc))
  record_call_probe now t (some err) b p g h k =
      ((λ e. cc), (λ e q c f. ground arith), (λ e q c. ground arith))

  -- The window that a counted outcome leaves: what the policy's window still holds, and the outcome.
  abbrev pub sampled : ℤ → Bool → Breaker O Err is_cancelled → List Observation
  sampled now failed b = prune O Err is_cancelled now b ++ record { at = now; failed = failed } ∷ []

  record_call-record_sample :
      (now : ℤ) (t : Admission) (err : Option Err) (b : Breaker O Err is_cancelled)
      → t.probe ≡ false
      → ((e : Err) → err ≡ some e → is_cancelled e ≡ false)
      → record_call O Err is_cancelled now t err b
        ≡ record_sample O Err is_cancelled now (has_failed O Err is_cancelled b err) b
  unfolding record_call
  record_call-record_sample now t none b p c = ground arith
  record_call-record_sample now t (some e) b p c = rw (c e refl) (ground arith)

  sampled_young :
      (now : ℤ) (failed : Bool) (b : Breaker O Err is_cancelled)
      → pos 0 <ℤ b.policy.window
      → All (λ o. now -ℤ b.policy.window <ℤ o.at) (sampled now failed b)
  unfolding prune
  sampled_young now failed b q = elim (Bool-cases (leb_ℤ b.policy.window (pos 0))) [
    | inl unbounded ↦ absurd (ground arith)
    | inr bounded ↦
        rw (bounded, prune)
          (All-append (λ o. now -ℤ b.policy.window <ℤ o.at)
            (kept_after (now -ℤ b.policy.window) b.window) _
            (kept_after-All (now -ℤ b.policy.window) b.window)
            (ground (arith, -ℤ_parts now b.policy.window), tt))
  ]

  module _ (now : ℤ) (failed : Bool) (b : Breaker O Err is_cancelled) (h : b.state ≡ closed) where
    sample-window : (record_sample O Err is_cancelled now failed b).window ≡ sampled now failed b
    unfolding record_sample
    sample-window = ground arith

    sample-few :
        pos (length (sampled now failed b)) <ℤ b.policy.min_samples
        → record_sample O Err is_cancelled now failed b ≡ record b { window = sampled now failed b }
    unfolding record_sample
    sample-few few = ground arith

    sample-reached :
        b.policy.min_samples ≤ℤ pos (length (sampled now failed b))
        → geb
            (div
              (of_int (pos (failures (sampled now failed b))))
              (of_int (pos (length (sampled now failed b)))))
            b.policy.threshold
          ≡ true
        → ((record_sample O Err is_cancelled now failed b).state ≡ open_state)
          × ((record_sample O Err is_cancelled now failed b).opened_at ≡ now)
    unfolding record_sample
    sample-reached enough reached = ground arith

    sample-missed :
        b.policy.min_samples ≤ℤ pos (length (sampled now failed b))
        → geb
            (div
              (of_int (pos (failures (sampled now failed b))))
              (of_int (pos (length (sampled now failed b)))))
            b.policy.threshold
          ≡ false
        → record_sample O Err is_cancelled now failed b ≡ record b { window = sampled now failed b }
    unfolding record_sample
    sample-missed enough missed = ground arith

  -- A closed breaker counts every outcome that is not the caller's cancellation. It opens, from now on,
  -- exactly when the window then holds the declared minimum of samples and the share of failures among
  -- them reaches the threshold; otherwise it stays closed with that window. Under a positive window
  -- every sample counted is younger than the window.
  pub record_call_sample :
      (now : ℤ) (t : Admission) (err : Option Err) (b : Breaker O Err is_cancelled)
      → t.probe ≡ false
      → b.state ≡ closed
      → ((e : Err) → err ≡ some e → is_cancelled e ≡ false)
      → let w = sampled now (has_failed O Err is_cancelled b err) b in
        let q = record_call O Err is_cancelled now t err b in
        (q.window ≡ w)
        × ((pos (length w) <ℤ b.policy.min_samples) → q ≡ record b { window = w })
        × (b.policy.min_samples ≤ℤ pos (length w)
            → geb (div (of_int (pos (failures w))) (of_int (pos (length w)))) b.policy.threshold
              ≡ true
            → (q.state ≡ open_state) × (q.opened_at ≡ now))
        × (b.policy.min_samples ≤ℤ pos (length w)
            → geb (div (of_int (pos (failures w))) (of_int (pos (length w)))) b.policy.threshold
              ≡ false
            → q ≡ record b { window = w })
        × (pos 0 <ℤ b.policy.window → All (λ o. now -ℤ b.policy.window <ℤ o.at) q.window)
  record_call_sample now t err b p h c = rw (record_call-record_sample now t err b p c) (
    sample-window now (has_failed O Err is_cancelled b err) b h,
    sample-few now (has_failed O Err is_cancelled b err) b h,
    sample-reached now (has_failed O Err is_cancelled b err) b h,
    sample-missed now (has_failed O Err is_cancelled b err) b h,
    (λ q.
        subst (All (λ o. now -ℤ b.policy.window <ℤ o.at))
          (sym (sample-window now (has_failed O Err is_cancelled b err) b h))
          (sampled_young now (has_failed O Err is_cancelled b err) b q)),
  )
