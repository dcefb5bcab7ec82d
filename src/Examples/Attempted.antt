-- ===== src/Examples/Attempted.antt =====
-- One external command, called, timed out and queried.
use dmpf.Prelude.{
  refl, length, ◌≤◌, ◌<◌, ◌+◌, ◌≡◌, ◌≢◌, ◌⊎◌, ◌↔◌, true, false, ◌||◌, List, [], ◌∷◌, ◌++◌, none,
  All,
}
use dmpf.Prelude.Int.{pos, pos_part, ◌≤ℤ◌, ◌<ℤ◌}
use dmpf.Ports.Results.{ok}
use dmpf.Ports.Attempts.{
  unknown_sent, accepted, retryable_transport, applied, absent, no_finding, native, on_submit,
  Observation, ExternalProfile, AttemptOutcome, Attempt, AttemptCursor, started, is_retryable,
}
use dmpf.Memory.Attempts.Row.{AttemptRow, new_row}
use dmpf.Memory.Attempts.Ledger.{AttemptKey, Ledger, rows_of, attempt_of, is_done, opens, begin_in}
use dmpf.Memory.Attempts.Ledger.Starts.{begin_in_starts}
use dmpf.Memory.Attempts.Ledger.Chain.{IsChain}
use dmpf.Memory.Attempts.Ledger.Calls.{Move, begins, finishes, observes, run}
use dmpf.Memory.Attempts.Ledger.OneOpen.{run-IsChain}
use mathlib.Core.List.{Memᴰ}
use dmpf.Memory.Attempts.Stale.{cursor_ltb, stale}
use dmpf.Memory.Attempts.Stale.Pages.{IsPending, stale_page}
use dmpf.Application.NextStep.{StepInput, next_step, retry, query, await, keeps_key}
use dmpf.Application.NextStep.Cycle.{next_step-retry_iff, next_step_spends}
use dmpf.Examples.Storage.{here}

abbrev outbound : AttemptKey
outbound = record { tenant = "acme"; id = "pay-1" }

abbrev seen : Observation
seen = record {
  key = "pay-1";
  finding = applied;
  source_at = pos 30;
  provider = "bank";
  external_ref = "b-9";
  id = "obs-1";
}

abbrev silent : Observation
silent = record seen { finding = no_finding; id = "" }

abbrev timeout : AttemptOutcome
timeout = record {
  key = "pay-1";
  n = pos 1;
  class = unknown_sent;
  observation = silent;
  finished_at = pos 20;
  presumed = false;
}

abbrev contrary : AttemptOutcome
contrary = record timeout { class = accepted; finished_at = pos 25 }

abbrev life : List Move
life =
    begins here "pay-1" "m-1" (pos 10)
    ∷ begins here "pay-1" "m-2" (pos 11)
    ∷ finishes here timeout
    ∷ observes here seen (pos 30)
    ∷ []

run-IsChain_example : IsChain (rows_of outbound (run [] life))
run-IsChain_example = run-IsChain life outbound

abbrev ended : AttemptRow
ended = record (new_row "m-1" (pos 10)) { finished = true; class = retryable_transport }

begin_in_starts_example :
    let (next, start) = begin_in outbound "m-1" (pos 40) (ended ∷ []) in
    (All (λ r. is_done "m-1" r ≡ false) (ended ∷ [])
      → opens (ended ∷ []) ≡ none
      → (next ≡ (ended ∷ []) ++ new_row "m-1" (pos 40) ∷ [])
        × (start ≡ started (attempt_of outbound (1 + 1) (new_row "m-1" (pos 40)))))
    × ((a : Attempt)
        → start ≡ started a
        → All (λ r. is_done "m-1" r ≡ false) (ended ∷ []) × (opens (ended ∷ []) ≡ none))
    × (((a : Attempt) → start ≢ started a) → next ≡ ended ∷ [])
begin_in_starts_example = begin_in_starts outbound "m-1" (pos 40) (ended ∷ [])

abbrev proven : AttemptRow
proven = record ended { finding = applied; seen = "obs-1" ∷ [] }

abbrev denial : Observation
denial = record seen { finding = absent; id = "obs-2" }

abbrev profile : ExternalProfile
profile = record {
  key_semantics = native;
  efficacy = on_submit;
  quiescence = pos 60;
  authoritative_absence = false;
  max_queries = pos 3;
  key_alphabet = "0123456789";
  key_max_length = pos 36;
}

abbrev situation : StepInput
situation = record {
  class = unknown_sent;
  finding = absent;
  profile = profile;
  query_available = true;
  queries_done = pos 1;
}

next_step-retry_iff_example : (next_step situation ≡ retry) ↔ (
    ((absent ≡ no_finding) × (is_retryable unknown_sent ≡ true))
    ⊎ ((absent ≡ absent) × ((keeps_key native || false) ≡ true)))
next_step-retry_iff_example = next_step-retry_iff situation

next_step_spends_example :
    (next_step situation ≡ query → (situation.query_available ≡ true) × (pos 1 <ℤ pos 3))
    × (next_step situation ≡ await → pos 1 <ℤ pos 3)
    × (pos 3 ≤ℤ pos 1 → (next_step situation ≢ query) × (next_step situation ≢ await))
next_step_spends_example = next_step_spends situation

-- The first attempt ended, the second is open since the cutoff and the third since later.
abbrev waiting : Ledger
waiting =
    (outbound, ended ∷ new_row "m-1" (pos 40) ∷ [])
    ∷ (record outbound { id = "pay-2" }, new_row "m-2" (pos 41) ∷ [])
    ∷ []

abbrev beginning : AttemptCursor
beginning = record { started_at = pos 0; tenant = ""; key = ""; n = 0 }

abbrev overdue_page : List Attempt
overdue_page = attempt_of outbound 2 (new_row "m-1" (pos 40)) ∷ []

stale-waiting : stale (pos 40) beginning (pos 5) waiting ≡ ok overdue_page
unfolding stale cursor_ltb
stale-waiting = refl

stale_page_example :
    (length overdue_page ≤ pos_part (pos 5))
    × ((x : Attempt) → Memᴰ x overdue_page → IsPending (pos 40) beginning x waiting)
    × (length overdue_page < pos_part (pos 5)
        → (x : Attempt) → IsPending (pos 40) beginning x waiting
        → Memᴰ x overdue_page)
stale_page_example = stale_page (pos 40) beginning (pos 5) waiting overdue_page stale-waiting
