-- ===== src/Application/Dispatch.antt =====
-- libs/backend/go/application/dispatch.go: the dispatch of an external command. `S` is the state that the
-- stores and the partner keep, `W` a transaction of it and `P` its pending. The marks on the carrier, which
-- nothing here reads, are left out, and so are the checks that no interface is nil.
pub mod Steps
pub mod Stored
pub mod Redelivery
pub mod Once
use dmpf.Prelude.{
  ℕ, String, string_eq, List, [], Bool, true, false, not, ◌&&◌, ◌||◌, ◌==◌, Option, none, some,
  if◌then◌else◌,
}
use dmpf.Prelude.Int.{ℤ, pos, ltb_ℤ, leb_ℤ}
use dmpf.Prelude.Word.{sub64}
use dmpf.Ports.Results.{
  Result, ok, err, panic, ◌>>◌, Error, failure, attempt_in_flight, incomplete_dispatch,
}
use dmpf.Ports.Transaction.{chain}
use dmpf.Ports.Inbox.{
  Status, processed, Receipt, Completion, Reception, first, was_processed, was_rejected, collision,
  Inbox,
}
use dmpf.Ports.Attempts.{
  ExternalClass, no_class, unknown_sent, unknown_ambiguous, is_retryable, Observation,
  ExternalProfile, Attempt, AttemptStart, started, in_flight, done, AttemptOutcome, FinishResult,
  recorded, Finished,
}
use dmpf.Memory.Attempts.Row.{no_observation}
use dmpf.Application.OutcomeCodec.{Texts}
use dmpf.Application.NextStep.{Step, StepInput, next_step}
use dmpf.Application.Disposition.{Disposition, r1d1, r2, r3, r4}
use dmpf.Application.Profile.{validate_external_profile}

pub record ExternalStep : Type 0 where
  pub step : Step
  pub attempt : Attempt
  pub class : ExternalClass
  pub observation : Observation

-- What the partner answers to a command.
pub record Submission : Type 0 where
  pub class : ExternalClass
  pub observation : Observation
  pub cause : Error

pub record Settlement : Type 0 where
  pub attempt : Attempt
  pub class : ExternalClass
  pub observation : Observation
  pub owned : Bool
  pub presumed : Bool

-- The outcome of a settlement, and what the ledger answered to it, if it was asked.
abbrev pub Settled : Type 0
Settled = Disposition × Option Finished

-- The ports of a dispatch: the ledger outside and inside a transaction, the inbox, the partner, and what
-- the use case applies.
pub record ExternalPorts (S W P : Type 0) : Type 0 where
  pub store_begin : String → String → ℤ → S → S × Result AttemptStart
  pub store_finish : AttemptOutcome → S → S × Result Finished
  pub submit : String → S → S × Submission
  pub within : (W → W × Result Settled) → S → S × Result Settled
  pub ledger_finish : AttemptOutcome → W → W × Result Finished
  pub inbox : Inbox W P
  pub apply : ExternalStep → W → W × Result (Unit {0})

-- The readings of the clock along one dispatch.
pub record Readings : Type 0 where
  pub at_begin : ℤ
  pub at_resume : ℤ
  pub at_finish : ℤ
  pub at_settle : ℤ

pub record ExternalDispatch : Type 0 where
  pub receipt : Receipt
  pub key : String
  pub profile : ExternalProfile
  pub query_available : Bool
  pub stale_after : ℤ
  pub clock : Readings

abbrev pub transient : Error → Error
transient cause = failure "TransientDependency" true cause

abbrev pub outcome_of : Settlement → String → ℤ → AttemptOutcome
outcome_of s key at = record {
  key = key;
  n = pos s.attempt.n;
  class = s.class;
  observation = s.observation;
  finished_at = at;
  presumed = s.presumed;
}

abbrev pub is_recorded : FinishResult → Bool
is_recorded recorded = true
is_recorded _ = false

-- A zero class is recorded as the uncertain class that no resend follows.
abbrev pub certain_class : ExternalClass → ExternalClass
certain_class no_class = unknown_ambiguous
certain_class c = c

abbrev pub submitted : Attempt → Submission → Settlement
submitted a sent = record {
  attempt = a;
  class = certain_class sent.class;
  observation = sent.observation;
  owned = true;
  presumed = false;
}

-- A redelivery that found the attempt begun, and one that found it done.
abbrev pub presumed_sent : Attempt → Settlement
presumed_sent a = record {
  attempt = a;
  class = unknown_sent;
  observation = no_observation;
  owned = true;
  presumed = true;
}

abbrev pub already_done : Attempt → ExternalClass → Settlement
already_done a class = record {
  attempt = a;
  class = class;
  observation = no_observation;
  owned = false;
  presumed = false;
}

unfoldable pub resume : ExternalDispatch → Attempt → Result Settlement
resume d a =
    if ltb_ℤ (sub64 d.clock.at_resume a.started_at) d.stale_after
    then err (transient attempt_in_flight)
    else ok (presumed_sent a)

-- What a retryable class leaves to do, once it is recorded outside the transaction.
abbrev pub after_finish : Settlement → Error → Finished → Result Settlement
after_finish s cause finished =
    if not (is_recorded finished.result) && not (is_retryable finished.class)
    then ok (record s { class = finished.class })
    else err (transient cause)

module _ {S W P : Type 0} (ports : ExternalPorts S W P) (d : ExternalDispatch) where
  unfoldable pub submit : Attempt → S → S × Result Settlement
  submit a s =
      let (after, sent) = ports.submit d.key s in
      let settlement = submitted a sent in
      if not (is_retryable settlement.class)
      then (after, ok settlement)
      else chain (ports.store_finish (outcome_of settlement d.key d.clock.at_finish) after)
          (λ finished last. (last, after_finish settlement sent.cause finished))

  unfoldable pub close : Disposition → Settlement → W → W × Result Settled
  close disposition s w =
      if not s.owned
      then (w, ok (disposition, none))
      else chain (ports.ledger_finish (outcome_of s d.key d.clock.at_settle) w)
          (λ finished last. (last, ok (disposition, some finished)))

  abbrev pub step_of : Settlement → ExternalStep
  step_of s = record {
    step = next_step (record {
      class = s.class;
      finding = s.observation.finding;
      profile = d.profile;
      query_available = d.query_available;
      queries_done = pos 0;
    });
    attempt = s.attempt;
    class = s.class;
    observation = s.observation;
  }

  -- The step is applied only where this call recorded the outcome.
  abbrev pub apply_recorded : Settlement → Finished → W → W × Result (Unit {0})
  apply_recorded s finished w =
      if is_recorded finished.result then ports.apply (step_of s) w else (w, ok tt)

  abbrev pub completion : Completion
  completion = record { status = processed; at = d.clock.at_settle; last_error = ""; outcome = [] }

  unfoldable pub finish : Settlement → P → W → W × Result Settled
  finish s pending w =
      chain (ports.ledger_finish (outcome_of s d.key d.clock.at_settle) w) (λ finished recorded_in.
        chain (apply_recorded s finished recorded_in) (λ applied applied_in.
          chain (ports.inbox.complete pending completion applied_in)
            (λ completed last. (last, ok (r1d1, some finished)))))

  unfoldable pub settle_reception : Settlement → Reception P → W → W × Result Settled
  settle_reception s (first pending) w = finish s pending w
  settle_reception s (was_processed stored) w = close r2 s w
  settle_reception s (was_rejected stored) w = close r3 s w
  settle_reception s collision w = close r4 s w

  unfoldable pub settle_in : Settlement → W → W × Result Settled
  settle_in s w = chain (ports.inbox.register d.receipt w) (settle_reception s)

  unfoldable pub settle : Settlement → S → S × Result Disposition
  settle s state = chain (ports.within (settle_in s) state) (λ settled last. (last, ok settled.0))

  unfoldable pub on_start : AttemptStart → S → S × Result Settlement
  on_start (started a) state = submit a state
  on_start (in_flight a) state = (state, resume d a)
  on_start (done a class) state = (state, ok (already_done a class))

  unfoldable pub run : S → S × Result Disposition
  run state =
      chain (ports.store_begin d.key d.receipt.message_id d.clock.at_begin state)
        (λ start begun. chain (on_start start begun) settle)

  module _ (t : Texts) where
    unfoldable pub validate : Result (Unit {0})
    validate =
        if d.key == ""
        then err incomplete_dispatch
        else if leb_ℤ d.stale_after (pos 0)
        then err incomplete_dispatch
        else validate_external_profile t d.profile

    -- The disposition of an error is what `Classify` makes of it.
    unfoldable pub dispatch : S → S × Result Disposition
    dispatch state = chain (state, validate) (λ valid. run)
