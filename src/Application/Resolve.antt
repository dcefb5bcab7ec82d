-- ===== src/Application/Resolve.antt =====
-- libs/backend/go/application/resolve.go, abandon.go: an observation of an external command, and the end of
-- one that is given up. `W` is a transaction; the marks on the carrier and the nil checks are left out.
use dmpf.Prelude.{
  ℕ, String, string_eq, Bool, true, false, ◌||◌, ◌==◌, none, some, if◌then◌else◌, ltb,
}
use dmpf.Prelude.Int.{ℤ, pos}
use dmpf.Ports.Results.{Result, ok, err, ◌>>=◌, ◌>>◌, incomplete_abandon, abandon_outside_tenant}
use dmpf.Ports.Context.{Context, ExecutionContext, require_execution_context}
use dmpf.Ports.Transaction.{chain}
use dmpf.Ports.Attempts.{
  unknown_sent, no_finding, Observation, ExternalProfile, Attempt, AttemptOutcome, Finished,
  ObserveResult, observe_recorded, Observed,
}
use dmpf.Memory.Attempts.Row.{no_observation}
use dmpf.Application.OutcomeCodec.{Texts}
use dmpf.Application.NextStep.{next_step}
use dmpf.Application.Profile.{validate_external_profile}
use dmpf.Application.Dispatch.{ExternalStep, is_recorded}

-- What a resolution is given in its transaction.
pub record ResolvePorts (W : Type 0) : Type 0 where
  pub observe : Observation → ℤ → W → W × Result Observed
  pub finish : AttemptOutcome → W → W × Result Finished
  pub apply : ExternalStep → W → W × Result (Unit {0})

abbrev pub is_observed : ObserveResult → Bool
is_observed observe_recorded = true
is_observed _ = false

abbrev pub attempt_at : String → ℕ → Attempt
attempt_at key n = record { tenant = ""; key = key; n = n; message_id = ""; started_at = pos 0 }

abbrev pub in_tenant : Attempt → ExecutionContext → Result (Unit {0})
in_tenant a execution = elim execution.tenant [
  | none ↦ err abandon_outside_tenant
  | some tenant ↦ if tenant == a.tenant then ok tt else err abandon_outside_tenant
]

unfoldable pub validate_abandon : Texts → ExternalProfile → Context → Attempt → Result (Unit {0})
validate_abandon t profile ctx a =
    if a.key == "" || ltb a.n 1
    then err incomplete_abandon
    else validate_external_profile t profile >> (require_execution_context ctx >>= in_tenant a)

module _ {W : Type 0} (ports : ResolvePorts W) (profile : ExternalProfile)
    (query_available : Bool) where
  abbrev pub resolved_step : Observation → Observed → ExternalStep
  resolved_step o seen = record {
    step = next_step (record {
      class = seen.class;
      finding = o.finding;
      profile = profile;
      query_available = query_available;
      queries_done = pos seen.queries_done;
    });
    attempt = attempt_at o.key seen.n;
    class = seen.class;
    observation = o;
  }

  -- The callback of the transaction: the step is applied only where the observation was recorded.
  unfoldable pub resolve_in : Observation → ℤ → W → W × Result Observed
  resolve_in o now w = chain (ports.observe o now w) (λ seen observed.
      if is_observed seen.result
      then chain (ports.apply (resolved_step o seen) observed) (λ applied last. (last, ok seen))
      else (observed, ok seen))

  abbrev pub abandoned_step : Attempt → ExternalStep
  abandoned_step a = record {
    step = next_step (record {
      class = unknown_sent;
      finding = no_finding;
      profile = profile;
      query_available = query_available;
      queries_done = pos 0;
    });
    attempt = a;
    class = unknown_sent;
    observation = no_observation;
  }

  abbrev pub abandon_outcome : Attempt → ℤ → AttemptOutcome
  abandon_outcome a now = record {
    key = a.key;
    n = pos a.n;
    class = unknown_sent;
    observation = no_observation;
    finished_at = now;
    presumed = true;
  }

  unfoldable pub abandon_in : Attempt → ℤ → W → W × Result Finished
  abandon_in a now w = chain (ports.finish (abandon_outcome a now) w) (λ finished closed.
      if is_recorded finished.result
      then chain (ports.apply (abandoned_step a) closed) (λ applied last. (last, ok finished))
      else (closed, ok finished))

  module _ (t : Texts) {S : Type 0} where
    unfoldable pub resolve :
        ((W → W × Result Observed) → S → S × Result Observed)
        → Observation
        → ℤ
        → S
        → S × Result Observed
    resolve within o now state =
        chain (state, validate_external_profile t profile) (λ valid. within (resolve_in o now))

    unfoldable pub abandon :
        ((W → W × Result Finished) → S → S × Result Finished)
        → Context
        → Attempt
        → ℤ
        → S
        → S × Result Finished
    abandon within ctx a now state =
        chain (state, validate_abandon t profile ctx a) (λ valid. within (abandon_in a now))
