-- ===== src/Resilience/Breaker.antt =====
-- libs/backend/go/observability/resilience/breaker.go: the circuit breaker of one dependency.
-- Every method runs under the lock, so it is one step from a state to a state; the instant that
-- `b.clock.Now()` reads is an argument. The gauge, the span and the log that report a transition or a
-- refusal are left out, since they never feed back into the state.
pub mod Tickets
pub mod Calls
pub mod Decisions
use dmpf.Prelude.{
  ℕ, suc, ◌+◌, ◌%◌, Bool, true, false, ◌&&◌, ◌||◌, not, List, [], ◌∷◌, ◌++◌, Option, none, some,
  length, String, if◌then◌else◌, eqb,
}
use dmpf.Prelude.Int.{ℤ, pos, ◌+ℤ◌, ◌-ℤ◌, ltb_ℤ, leb_ℤ}
use dmpf.Prelude.Word.{full_range}
use dmpf.Prelude.Float.{FloatOps}

pub data BreakerState : Type 0 where
  closed half_open open_state : BreakerState

abbrev pub state_name : BreakerState → String
state_name half_open = "half_open"
state_name open_state = "open"
state_name closed = "closed"

pub record Admission : Type 0 where
  pub probe : Bool
  pub generation : ℕ

pub record Observation : Type 0 where
  pub at : ℤ
  pub failed : Bool

abbrev pub is_state : BreakerState → BreakerState → Bool
is_state closed closed = true
is_state half_open half_open = true
is_state open_state open_state = true
is_state _ _ = false

-- What `admit` returns: the ticket, or the reason of the refusal that wraps ErrBreakerOpen.
pub data Grant : Type 0 where
  granted : Admission → Grant
  refused : String → Grant

pub kept_after : ℤ → List Observation → List Observation
kept_after edge [] = []
kept_after edge (seen ∷ rest) =
    let kept = kept_after edge rest in if ltb_ℤ edge seen.at then seen ∷ kept else kept

pub failures : List Observation → ℕ
failures [] = 0
failures (seen ∷ rest) = let n = failures rest in if seen.failed then suc n else n

-- `Err` is Go's `error`, and `is_cancelled` the test `errors.Is(err, ErrCancelled)`.
module _ (O : FloatOps) (Err : Type 0) (is_cancelled : Err → Bool) where
  open O use {F, of_int, div, geb}

  pub record BreakerPolicy : Type 0 where
    pub threshold : F
    pub min_samples : ℤ
    pub window : ℤ
    pub cooldown : ℤ
    pub probes : ℤ

  pub record Breaker : Type 0 where
    pub policy : BreakerPolicy
    pub failure : Option (Err → Bool)
    pub window : List Observation
    pub state : BreakerState
    pub opened_at : ℤ
    pub probing : ℤ
    pub generation : ℕ

  pub new_breaker : BreakerPolicy → Breaker
  new_breaker p = record {
    policy = p;
    failure = none;
    window = [];
    state = closed;
    opened_at = pos 0;
    probing = pos 0;
    generation = 0;
  }

  abbrev pub counts_as_failure : (Err → Bool) → Breaker → Breaker
  counts_as_failure f b = record b { failure = some f }

  pub probes : Breaker → ℤ
  probes b = if leb_ℤ b.policy.probes (pos 0) then pos 1 else b.policy.probes

  -- `generation` is a uint64.
  pub transition : BreakerState → ℤ → Breaker → Breaker
  transition closed now b = record b {
    generation = (b.generation + 1) % full_range;
    state = closed;
    probing = pos 0;
  }
  transition half_open now b = record b {
    generation = (b.generation + 1) % full_range;
    state = half_open;
  }
  transition open_state now b = record b {
    generation = (b.generation + 1) % full_range;
    state = open_state;
    opened_at = now;
    probing = pos 0;
  }

  -- The half-open branch of `admit` and what follows it.
  grant : Breaker → Breaker × Grant
  unfolding probes
  grant b =
      if is_state b.state half_open
      then if leb_ℤ (probes b) b.probing
        then (b, refused "is half-open and its probes are in flight")
        else (
          record b { probing = b.probing +ℤ pos 1 },
          granted (record { probe = true; generation = b.generation }),
        )
      else (b, granted (record { probe = false; generation = b.generation }))

  pub admit : ℤ → Breaker → Breaker × Grant
  unfolding transition grant
  admit now b =
      if is_state b.state open_state
      then if ltb_ℤ (now -ℤ b.opened_at) b.policy.cooldown
        then (b, refused "is open")
        else grant (transition half_open now b)
      else grant b

  pub prune : ℤ → Breaker → List Observation
  unfolding kept_after
  prune now b =
      if leb_ℤ b.policy.window (pos 0)
      then b.window
      else kept_after (now -ℤ b.policy.window) b.window

  pub should_open : BreakerPolicy → List Observation → Bool
  unfolding failures
  should_open p window =
      if ltb_ℤ (pos (length window)) p.min_samples
      then false
      else geb (div (of_int (pos (failures window))) (of_int (pos (length window)))) p.threshold

  -- `err != nil && (b.failure == nil || b.failure(err))`
  pub has_failed : Breaker → Option Err → Bool
  has_failed b none = false
  has_failed b (some err) = elim b.failure [ none ↦ true | some f ↦ f err ]

  pub release_probe : Admission → Breaker → Breaker
  release_probe ticket b =
      if not ticket.probe
      then b
      else if eqb ticket.generation b.generation
          && is_state b.state half_open
          && ltb_ℤ (pos 0) b.probing
      then record b { probing = b.probing -ℤ pos 1 }
      else b

  record_probe : ℤ → Admission → Bool → Breaker → Breaker
  unfolding transition
  record_probe now ticket failed b =
      if not (eqb ticket.generation b.generation) || not (is_state b.state half_open)
      then b
      else let settled = record b { probing = b.probing -ℤ pos 1; window = [] } in
        if failed then transition open_state now settled else transition closed now settled

  record_sample : ℤ → Bool → Breaker → Breaker
  unfolding transition should_open prune
  record_sample now failed b =
      if is_state b.state half_open
      then b
      else let sampled = record b {
        window = prune now b ++ record { at = now; failed = failed } ∷ [];
      } in
        if should_open sampled.policy sampled.window
        then transition open_state now sampled
        else sampled

  record_outcome : ℤ → Admission → Bool → Breaker → Breaker
  unfolding record_probe record_sample
  record_outcome now ticket failed b =
      if ticket.probe then record_probe now ticket failed b else record_sample now failed b

  -- `record`; `none` is the nil error.
  pub record_call : ℤ → Admission → Option Err → Breaker → Breaker
  unfolding record_outcome release_probe has_failed
  record_call now ticket none b = record_outcome now ticket (has_failed b none) b
  record_call now ticket (some err) b =
      if is_cancelled err
      then release_probe ticket b
      else record_outcome now ticket (has_failed b (some err)) b
