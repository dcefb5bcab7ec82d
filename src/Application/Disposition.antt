-- ===== src/Application/Disposition.antt =====
-- libs/backend/go/application/disposition.go, failure.go: the outcomes of a consumption, and how a technical
-- failure is classified. What a driver's error answers to errors.As is a parameter: its SQLSTATE, its
-- SafeToRetry and its Timeout, and the Failure that code outside the model may have wrapped it in.
use Prim.Native.String.{slice}
use dmpf.Prelude.{ℕ, String, string_eq, Bool, false, ◌||◌, Option, none, some, ◌==◌, if◌then◌else◌}
use dmpf.Ports.Results.{
  Error, register_timeout, idempotency_in_flight, deadline_exceeded, failure, foreign,
}

pub data Disposition : Type 0 where
  r1d1 r1d2 r1d3 r1d4 r2 r3 r4 : Disposition

abbrev pub disposition_text : Disposition → String
disposition_text r1d1 = "R1×D1"
disposition_text r1d2 = "R1×D2"
disposition_text r1d3 = "R1×D3"
disposition_text r1d4 = "R1×D4"
disposition_text r2 = "R2"
disposition_text r3 = "R3"
disposition_text r4 = "R4"

pub record DriverViews : Type 0 where
  pub failure_of : ℕ → Option Bool
  pub sql_state : ℕ → Option String
  pub safe_to_retry : ℕ → Bool
  pub timeout : ℕ → Bool

-- strings.HasPrefix(state, "08")
abbrev pub transient_state : String → Bool
transient_state state =
    slice state 0 2 == "08" || state == "40001" || state == "40P01" || state == "57P01"

module _ (views : DriverViews) where
  abbrev pub transient_database : ℕ → Bool
  transient_database n = elim (views.sql_state n) [
    | none ↦ false
    | some state ↦ transient_state state
  ]

  abbrev pub transient_transport : ℕ → Bool
  transient_transport n = views.safe_to_retry n || views.timeout n

  abbrev pub classify_foreign : ℕ → Disposition
  classify_foreign n = elim (views.failure_of n) [
    | some retryable ↦ if retryable then r1d3 else r1d4
    | none ↦ if transient_database n || transient_transport n then r1d3 else r1d4
  ]

  -- A nil error is no argument of the model's; ErrIdempotencyInFlight wraps the register timeout.
  unfoldable pub classify : Error → Disposition
  classify (failure category retryable cause) = if retryable then r1d3 else r1d4
  classify register_timeout = r1d3
  classify idempotency_in_flight = r1d3
  classify deadline_exceeded = r1d3
  classify (foreign n) = classify_foreign n
  classify _ = r1d4
