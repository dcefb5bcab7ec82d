-- ===== src/Examples/Breaking.antt =====
-- A breaker that opens at half of two samples.
use dmpf.Prelude.{Bool, true, false, List, [], ◌∷◌, none, some, arith}
use dmpf.Prelude.Int.{pos}
use dmpf.Resilience.Breaker.{
  Admission, Observation, Breaker, BreakerPolicy, closed, half_open, has_failed,
}
use dmpf.Resilience.Breaker.Calls.{Move, arrives, returns, run}
use dmpf.Resilience.Breaker.Tickets.{Inv, start, run-start-Inv}
use dmpf.Resilience.Breaker.Decisions.{sampled}
use dmpf.Examples.Floats.{milli}

-- The error `true` is the caller's cancellation.
abbrev is_cancelled : Bool → Bool
is_cancelled e = e

abbrev policy : BreakerPolicy milli Bool is_cancelled
policy = record {
  threshold = some 500;
  min_samples = pos 2;
  window = pos 100;
  cooldown = pos 50;
  probes = pos 1;
}

abbrev shut : Breaker milli Bool is_cancelled
shut = record {
  policy = policy;
  failure = none;
  window = record { at = pos 10; failed = true } ∷ [];
  state = closed;
  opened_at = pos 0;
  probing = pos 0;
  generation = 4;
}

abbrev probing : Breaker milli Bool is_cancelled
probing = record shut { state = half_open; probing = pos 1; generation = 5 }

abbrev calls : List (Move milli Bool is_cancelled)
calls =
    arrives (pos 1)
    ∷ arrives (pos 2)
    ∷ returns 0 (pos 3) (some false)
    ∷ returns 0 (pos 4) (some false)
    ∷ arrives (pos 90)
    ∷ arrives (pos 91)
    ∷ returns 0 (pos 95) none
    ∷ []

run-start-Inv_example :
    Inv milli Bool is_cancelled 7
      (run milli Bool is_cancelled (start milli Bool is_cancelled policy) calls)
run-start-Inv_example = run-start-Inv milli Bool is_cancelled policy calls (omega arith)

abbrev plain : Admission
plain = record { probe = false; generation = 4 }

abbrev probe : Admission
probe = record { probe = true; generation = 5 }

abbrev counted : List Observation
counted =
    sampled milli Bool is_cancelled (pos 20) (has_failed milli Bool is_cancelled shut (some false))
      shut
