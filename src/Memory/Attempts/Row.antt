-- ===== src/Memory/Attempts/Row.antt =====
-- libs/backend/go/memory/attempt_ledger.go: one attempt, and what its outcome and its observations make of it.
pub mod Records
use text.Mathlib.TextEquality.{eq_iff}
use dmpf.Prelude.{
  ℕ, suc, ◌+◌, ◌-◌, ◌≡◌, ◌↔◌, String, string_eq, Bool, true, false, ◌&&◌, ◌||◌, not, List, [], ◌∷◌,
  ◌++◌, Option, none, some, Eq, ◌==◌, arith, if◌then◌else◌, length, get_elem?, set, any, ltb, leb,
}
use dmpf.Prelude.Int.{ℤ, pos, pos_part, ltb_ℤ}
use dmpf.Prelude.Maps.{lookup, insert}
use dmpf.Ports.Results.{
  Result, ok, err, panic, ◌>>=◌, Error, invalid_attempt, attempt_unknown, attempt_in_flight,
}
use dmpf.Ports.Context.{Context}
use dmpf.Ports.Transaction.{chain}
use dmpf.Ports.Attempts.{
  ExternalClass, no_class, undeclared, is_retryable, same_class, Finding, no_finding, applied,
  rejected, undeclared_finding, same_finding, Observation, Attempt, AttemptStart, started,
  in_flight, done, AttemptOutcome, max_attempt_entries, FinishResult, recorded, unchanged, conflict,
  saturated, Finished, ObserveResult, observe_recorded, observe_duplicate, observe_conflict,
  observe_saturated, Observed,
}
use dmpf.Memory.Rows.{RowKey, row_key_eq, scoped_key}

pub record AttemptConflict : Type 0 where
  pub class : ExternalClass
  pub finding : Finding
  pub at : ℤ

pub record AttemptRow : Type 0 where
  pub message_id : String
  pub started_at : ℤ
  pub finished : Bool
  pub finished_at : ℤ
  pub class : ExternalClass
  pub observation : Observation
  pub finding : Finding
  pub observed_at : ℤ
  pub seen : List String
  pub queries : ℕ
  pub conflicts : List AttemptConflict

abbrev pub is_saturated : AttemptRow → Bool
is_saturated r =
    leb max_attempt_entries (length r.seen) || leb max_attempt_entries (length r.conflicts)

abbrev pub is_terminal : Finding → Bool
is_terminal applied = true
is_terminal rejected = true
is_terminal _ = false

abbrev pub valid_class : ExternalClass → Bool
valid_class no_class = false
valid_class undeclared = false
valid_class _ = true

abbrev pub valid_finding : Finding → Bool
valid_finding no_finding = false
valid_finding undeclared_finding = false
valid_finding _ = true

abbrev pub has_finding : Finding → Bool
has_finding no_finding = false
has_finding _ = true

abbrev pub no_observation : Observation
no_observation = record {
  key = "";
  finding = no_finding;
  source_at = pos 0;
  provider = "";
  external_ref = "";
  id = "";
}

abbrev pub new_row : String → ℤ → AttemptRow
new_row message now = record {
  message_id = message;
  started_at = now;
  finished = false;
  finished_at = pos 0;
  class = no_class;
  observation = no_observation;
  finding = no_finding;
  observed_at = pos 0;
  seen = [];
  queries = 0;
  conflicts = [];
}

abbrev pub valid_outcome : AttemptOutcome → Bool
valid_outcome o =
    not (o.key == "")
    && not (ltb_ℤ o.n (pos 1))
    && valid_class o.class
    && (o.observation.key == "" || o.observation.key == o.key)
    && (not (has_finding o.observation.finding) || valid_finding o.observation.finding)

-- The row of a first outcome, with the observation that came with it.
unfoldable pub close_row : AttemptOutcome → AttemptRow → AttemptRow
close_row o r =
    let closed : AttemptRow = record r {
      finished = true;
      finished_at = o.finished_at;
      class = o.class;
    } in
    let observed : AttemptRow =
      (if not (o.observation.id == "") || has_finding o.observation.finding
        then record closed {
          observation = o.observation;
          finding = o.observation.finding;
          observed_at = o.finished_at;
        }
        else closed) in
    if not (o.observation.id == "")
    then record observed { seen = observed.seen ++ o.observation.id ∷ [] }
    else observed

unfoldable pub finish_row : AttemptOutcome → AttemptRow → AttemptRow × Finished
unfolding close_row
finish_row o r =
    if not r.finished
    then (close_row o r, record { result = recorded; class = o.class })
    else if same_class r.class o.class || o.presumed
    then (r, record { result = unchanged; class = r.class })
    else if is_saturated r
    then (r, record { result = saturated; class = r.class })
    else (
      record r {
        conflicts =
            r.conflicts
            ++ record { class = o.class; finding = no_finding; at = o.finished_at } ∷ [];
      },
      record { result = conflict; class = r.class },
    )

abbrev pub valid_observation : Observation → Bool
valid_observation o = not (o.key == "") && not (o.id == "") && valid_finding o.finding

-- The row of the last attempt under an observation that is new to it, once there is room to keep it.
unfoldable pub record_finding : Observation → ℤ → ℕ → AttemptRow → AttemptRow × Observed
record_finding o now n last =
    let answer : Observed = record {
      result = observe_duplicate;
      n = n;
      class = last.class;
      queries_done = last.queries;
    } in
    if is_terminal last.finding
    then (if not (is_terminal o.finding) || same_finding o.finding last.finding
        then (last, answer)
        else (
          record last {
            conflicts =
                last.conflicts ++ record { class = no_class; finding = o.finding; at = now } ∷ [];
          },
          record answer { result = observe_conflict },
        ))
    else (
      record last {
        observation = o;
        finding = o.finding;
        observed_at = now;
        queries = last.queries + 1;
      },
      record answer { result = observe_recorded; queries_done = last.queries + 1 },
    )

unfoldable pub observe_row : Observation → ℤ → ℕ → AttemptRow → AttemptRow × Observed
unfolding record_finding
observe_row o now n last =
    let answer : Observed = record {
      result = observe_duplicate;
      n = n;
      class = last.class;
      queries_done = last.queries;
    } in
    if any (λ id. id == o.id) last.seen
    then (last, answer)
    else if is_saturated last && is_terminal last.finding && same_finding o.finding last.finding
    then (last, answer)
    else if is_saturated last && (is_terminal last.finding || not (is_terminal o.finding))
    then (last, record answer { result = observe_saturated })
    else record_finding o now n
        (if not (is_saturated last) then record last { seen = last.seen ++ o.id ∷ [] } else last)
