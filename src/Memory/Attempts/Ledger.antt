-- ===== src/Memory/Attempts/Ledger.antt =====
-- libs/backend/go/memory/attempt_ledger.go: the ledger of the attempts of an external command.
pub mod Starts
pub mod Chain
pub mod Calls
pub mod OneOpen
pub mod Answers
pub mod Settled
use text.Mathlib.TextEquality.{eq_iff}
use dmpf.Prelude.{
  ℕ, suc, ◌+◌, ◌-◌, ◌≡◌, ◌↔◌, String, string_eq, Bool, true, false, ◌&&◌, ◌||◌, not, List, [], ◌∷◌,
  ◌++◌, Option, none, some, Eq, ◌==◌, arith, if◌then◌else◌, length, get_elem?, set, any, ltb, leb,
}
use dmpf.Prelude.Int.{ℤ, pos, pos_part, ltb_ℤ}
use dmpf.Prelude.Maps.{lookup, insert}
use dmpf.Ports.Results.{
  Result, ok, err, panic, ◌>>=◌, Error, invalid_attempt, attempt_unknown, attempt_in_flight,
}
use dmpf.Ports.Context.{Context}
use dmpf.Ports.Transaction.{chain}
use dmpf.Ports.Attempts.{
  ExternalClass, no_class, undeclared, is_retryable, same_class, Finding, no_finding, applied,
  rejected, undeclared_finding, same_finding, Observation, Attempt, AttemptStart, started,
  in_flight, done, AttemptOutcome, max_attempt_entries, FinishResult, recorded, unchanged, conflict,
  saturated, Finished, ObserveResult, observe_recorded, observe_duplicate, observe_conflict,
  observe_saturated, Observed,
}
use dmpf.Memory.Rows.{RowKey, row_key_eq, scoped_key}
use dmpf.Memory.Attempts.Row.{
  AttemptConflict, AttemptRow, is_saturated, is_terminal, new_row, finish_row, observe_row,
  valid_outcome, valid_observation,
}

-- A key is the tenant with the outbound key.
abbrev pub AttemptKey : Type 0
AttemptKey = RowKey String

abbrev pub Ledger : Type 0
Ledger = List (AttemptKey × List AttemptRow)

unfoldable pub rows_of : AttemptKey → Ledger → List AttemptRow
rows_of scope l = elim (lookup scope l) [ none ↦ [] | some rows ↦ rows ]

abbrev pub attempt_of : AttemptKey → ℕ → AttemptRow → Attempt
attempt_of scope n r = record {
  tenant = scope.tenant;
  key = scope.id;
  n = n;
  message_id = r.message_id;
  started_at = r.started_at;
}

abbrev pub is_done : String → AttemptRow → Bool
is_done message r = r.finished && r.message_id == message && not (is_retryable r.class)

-- The last attempt of the message that ended for good, and its number; `n` is the number of the first row.
unfoldable pub last_done : String → ℕ → List AttemptRow → Option (ℕ × AttemptRow)
last_done message n [] = none
last_done message n (r ∷ rows) = elim (last_done message (n + 1) rows) [
  | some found ↦ some found
  | none ↦ if is_done message r then some (n, r) else none
]

abbrev pub last_row : List AttemptRow → Option AttemptRow
last_row [] = none
last_row (r ∷ []) = some r
last_row (r ∷ s ∷ rows) = last_row (s ∷ rows)

abbrev pub opens : List AttemptRow → Option AttemptRow
opens rows = elim (last_row rows) [ none ↦ none | some r ↦ if r.finished then none else some r ]

-- `Begin` under a scope.
unfoldable pub begin_in : AttemptKey → String → ℤ → List AttemptRow → List AttemptRow × AttemptStart
unfolding last_done
begin_in scope message now rows = elim (last_done message 1 rows) [
  | some (n, r) ↦ (rows, done (attempt_of scope n r) r.class)
  | none ↦ elim (opens rows) [
    | some r ↦ (rows, in_flight (attempt_of scope (length rows) r))
    | none ↦
        let row = new_row message now in
        (rows ++ row ∷ [], started (attempt_of scope (length rows + 1) row))
  ]
]

unfoldable pub finish_in : AttemptOutcome → List AttemptRow → List AttemptRow × Result Finished
unfolding finish_row
finish_in o rows = elim (get_elem? rows (pos_part o.n - 1)) [
  | none ↦ (rows, err attempt_unknown)
  | some r ↦ let (next, answer) = finish_row o r in (set rows (pos_part o.n - 1) next, ok answer)
]

pub observe_in : Observation → ℤ → List AttemptRow → List AttemptRow × Result Observed
unfolding observe_row
observe_in o now rows = elim (last_row rows) [
  | none ↦ (rows, err attempt_unknown)
  | some last ↦
      if not last.finished
      then (rows, err attempt_in_flight)
      else let (next, answer) = observe_row o now (length rows) last in
        (set rows (length rows - 1) next, ok answer)
]

-- Only an attempt that starts, and an outcome or an observation that finds its attempt, are written.
abbrev pub store_started : AttemptKey → List AttemptRow → AttemptStart → Ledger → Ledger
store_started scope rows (started a) l = insert scope rows l
store_started scope rows _ l = l

abbrev pub store_answered : {A : Type 0} → AttemptKey → List AttemptRow → Result A → Ledger → Ledger
store_answered scope rows (ok a) l = insert scope rows l
store_answered scope rows _ l = l

-- `Begin`, `Finish` and `Observe` on the rows of the tenant that the context resolved.
module _ (ctx : Context) where
  unfoldable pub begin : String → String → ℤ → Ledger → Ledger × Result AttemptStart
  unfolding begin_in
  begin key message now l =
      if key == "" || message == ""
      then (l, err invalid_attempt)
      else chain (l, scoped_key ctx key)
          (λ scope l.
            let (rows, start) = begin_in scope message now (rows_of scope l) in
            (store_started scope rows start l, ok start))

  unfoldable pub finish : AttemptOutcome → Ledger → Ledger × Result Finished
  unfolding finish_in
  finish o l =
      if not (valid_outcome o)
      then (l, err invalid_attempt)
      else chain (l, scoped_key ctx o.key)
          (λ scope l.
            let (rows, answer) = finish_in o (rows_of scope l) in
            (store_answered scope rows answer l, answer))

  pub observe : Observation → ℤ → Ledger → Ledger × Result Observed
  unfolding observe_in
  observe o now l =
      if not (valid_observation o)
      then (l, err invalid_attempt)
      else chain (l, scoped_key ctx o.key)
          (λ scope l.
            let (rows, answer) = observe_in o now (rows_of scope l) in
            (store_answered scope rows answer l, answer))
