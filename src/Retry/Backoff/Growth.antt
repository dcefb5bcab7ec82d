-- ===== src/Retry/Backoff/Growth.antt =====
-- The interval doubles up to the cap and never wraps, and the wait stays below it.
use dmpf.Prelude.{
  ℕ, zero, suc, ◌*◌, ◌^◌, ◌≤◌, ◌<◌, min, ◌≡◌, ◌∙◌, Option, none, some, true, false, arith,
}
use native.Mathlib.Nat.{pow-suc, pow-succ', mul_assoc, pow-zero}
use native.Mathlib.Decide.{dec_le}
use dmpf.Prelude.Int.{pos, ◌≤ℤ◌, ◌*ℤ◌}
use dmpf.Prelude.Word.{mul64, half_range, wrap64_of_IsInt64}
use dmpf.Prelude.Float.{FloatOps}
use dmpf.Retry.Backoff.{Backoff, grow, interval, jitter, next}

mul64_exact : (n f : ℕ) → n * f < half_range → mul64 (pos n) (pos f) ≡ pos (n * f)
unfolding mul64 ◌*ℤ◌
mul64_exact n f h = wrap64_of_IsInt64 (pos n *ℤ pos f) (grind arith) ∙ grind arith

pow-pos : (f k : ℕ) → 1 < f → 0 < f ^ k
pow-pos f zero h = rw (pow-zero f) (omega arith)
pow-pos f (suc k) h = rw (pow-suc f k) (grind (arith, pow-pos f k h))

-- Two shapes of a product against the cap.
min_reached : (c n f p : ℕ) → 0 < p → c ≤ n * f → min c (n * (f * p)) ≡ c
min_reached c n f p hp h = rw (← mul_assoc n f p) (grind arith)

mul_mono : (m c f : ℕ) → m ≤ c → m * f ≤ c * f
mul_mono m c f h = grind arith

module _ (b : Backoff) (f c : ℕ) (factor : b.factor ≡ pos f) (cap : b.cap ≡ pos c) where
  grow_closed :
      (k n : ℕ)
      → 1 < f
      → 0 < c
      → c * f < half_range
      → n * f < half_range
      → grow b k (pos n) ≡ pos (min c (n * f ^ k))
  unfolding grow
  grow_closed zero n hf hc hcap hfit = rw (pow-zero f) (ground arith)
  grow_closed (suc k) n hf hc hcap hfit = elim (dec_le c (n * f)) [
    | yes reached ↦
        rw (pow-succ' f k, min_reached c n f (f ^ k) (pow-pos f k hf) reached)
          (ground (arith, mul64_exact n f hfit))
    | no below ↦
        rw (pow-succ' f k, ← mul_assoc n f (f ^ k))
          (ground (
            arith,
            mul64_exact n f hfit,
            grow_closed k (n * f) hf hc hcap (omega (arith, mul_mono (n * f) c f (omega arith))),
          ))
  ]

-- With a positive base, a factor above one and a positive cap, if the larger of base and cap times the
-- factor is within int64, then the interval before the attempt that follows attempt k is exactly the
-- smaller of the cap and base * factor ^ k: the multiplication of the loop never wraps.
pub interval_closed :
    (b : Backoff) (k base f c : ℕ)
    → b.base ≡ pos base
    → b.factor ≡ pos f
    → b.cap ≡ pos c
    → 0 < base
    → 1 < f
    → 0 < c
    → c * f < half_range
    → base * f < half_range
    → interval b (pos k) ≡ pos (min c (base * f ^ k))
unfolding interval
interval_closed b k base f c eb ef ec hb hf hc hcap hfit =
    rw (eb, interval) (ground (arith, grow_closed b f c ef ec k base hf hc hcap hfit))

module _ (O : FloatOps) where
  open O use {F, zero_f, one_f, of_int, mul, geb, truncate}

  -- A NaN is the value that is not at least itself; the draw of a nil `rand` is none.
  abbrev pub IsNumber : Option F → Type 0
  IsNumber none = Unit {0}
  IsNumber (some draw) = geb draw draw ≡ true

  -- What IEEE 754 gives below 2^53: scaling by a number strictly between 0 and 1 stays between 0 and the
  -- number scaled.
  abbrev pub ScalesDown : Type 0
  ScalesDown =
      (n : ℕ) (draw : F)
      → n < 9007199254740992
      → geb draw draw ≡ true
      → geb zero_f draw ≡ false
      → geb draw one_f ≡ false
      → (pos 0 ≤ℤ truncate (mul (of_int (pos n)) draw))
        × (truncate (mul (of_int (pos n)) draw) ≤ℤ pos n)

  jitter_bounds :
      (n : ℕ) (rand : Option F)
      → ScalesDown
      → IsNumber rand
      → n < 9007199254740992
      → (pos 0 ≤ℤ jitter O (pos n) rand) × (jitter O (pos n) rand ≤ℤ pos n)
  unfolding jitter
  jitter_bounds n none law number small = omega arith
  jitter_bounds n (some draw) law number small = ground (arith, law n draw)

  -- Under the conditions of the closed form, with a cap below 2^53 ns and for every draw that is not a NaN,
  -- the wait lies between zero and the smaller of the cap and base * factor ^ k, provided that a product
  -- with a number strictly between 0 and 1 stays between zero and the other factor.
  pub next_bounds :
      (b : Backoff) (k base f c : ℕ) (rand : Option F)
      → ScalesDown
      → IsNumber rand
      → b.base ≡ pos base
      → b.factor ≡ pos f
      → b.cap ≡ pos c
      → 0 < base
      → 1 < f
      → 0 < c
      → c < 9007199254740992
      → c * f < half_range
      → base * f < half_range
      → (pos 0 ≤ℤ next O b (pos k) rand) × (next O b (pos k) rand ≤ℤ pos (min c (base * f ^ k)))
  unfolding next
  next_bounds b k base f c rand law number eb ef ec hb hf hc small hcap hfit =
      let e = interval_closed b k base f c eb ef ec hb hf hc hcap hfit in
      rw (e, next)
        (ground (arith, jitter_bounds (min c (base * f ^ k)) rand law number (omega arith)))
