-- ===== src/Memory/Attempts/Ledger/Calls.antt =====
-- The ledger under the calls of any contexts: what every call keeps of the rows of each key.
use dmpf.Prelude.{
  ◌≡◌, inl, inr, String, Bool, true, false, List, [], ◌∷◌, arith, subst, Bool-cases, string_eq,
  ◌==◌, ◌||◌, not, if◌then◌else◌,
}
use dmpf.Prelude.Int.{ℤ}
use dmpf.Prelude.Maps.{insert, lookup-insert}
use dmpf.Ports.Results.{Result, ok, err, panic, invalid_attempt}
use dmpf.Ports.Transaction.{chain}
use dmpf.Ports.Context.{Context}
use dmpf.Ports.Attempts.{AttemptStart, started, in_flight, done, AttemptOutcome, Observation}
use dmpf.Memory.Rows.{row_key_eq, same_key, same_key_iff, scoped_key}
use dmpf.Memory.Attempts.Row.{AttemptRow, valid_outcome, valid_observation}
use dmpf.Memory.Attempts.Ledger.{
  AttemptKey, Ledger, rows_of, begin_in, finish_in, observe_in, begin, finish, observe,
  store_started, store_answered,
}

pub data Move : Type 0 where
  begins : Context → (key message : String) → ℤ → Move
  finishes : Context → AttemptOutcome → Move
  observes : Context → Observation → ℤ → Move

pub step : Ledger → Move → Ledger
unfolding begin finish observe
step l (begins ctx key message now) = (begin ctx key message now l).0
step l (finishes ctx o) = (finish ctx o l).0
step l (observes ctx o now) = (observe ctx o now l).0

unfoldable pub run : Ledger → List Move → Ledger
unfolding step
run l [] = l
run l (m ∷ ms) = run (step l m) ms

rows_of-insert :
    (scope other : AttemptKey) (rows : List AttemptRow) (l : Ledger)
    → rows_of other (insert scope rows l) ≡ (if same_key scope other then rows else rows_of other l)
unfolding rows_of
rows_of-insert scope other rows l = ground (arith, lookup-insert scope other rows l)

-- `P` is what the rows of a key keep, whatever the call.
module _ (P : AttemptKey → List AttemptRow → Type 0) where
  pub record IsKept : Type 0 where
    pub begun :
        (scope : AttemptKey) (message : String) (now : ℤ) (rows : List AttemptRow)
        → P scope rows
        → P scope (begin_in scope message now rows).0
    pub finished :
        (scope : AttemptKey) (o : AttemptOutcome) (rows : List AttemptRow)
        → P scope rows
        → P scope (finish_in o rows).0
    pub observed :
        (scope : AttemptKey) (o : Observation) (now : ℤ) (rows : List AttemptRow)
        → P scope rows
        → P scope (observe_in o now rows).0

  abbrev pub Inv : Ledger → Type 0
  Inv l = (scope : AttemptKey) → P scope (rows_of scope l)

  insert-Inv :
      (scope : AttemptKey) (rows : List AttemptRow) (l : Ledger)
      → P scope rows
      → Inv l
      → Inv (insert scope rows l)
  insert-Inv scope rows l h inv other = elim (Bool-cases (same_key scope other)) [
    | inl same ↦
        rw (rows_of-insert scope other rows l, same)
          (subst (λ k. P k rows) ((same_key_iff scope other).0 same) h)
    | inr apart ↦ rw (rows_of-insert scope other rows l, apart) (inv other)
  ]

  store_started-Inv :
      (scope : AttemptKey) (rows : List AttemptRow) (start : AttemptStart) (l : Ledger)
      → P scope rows
      → Inv l
      → Inv (store_started scope rows start l)
  store_started-Inv scope rows (started a) l h inv = insert-Inv scope rows l h inv
  store_started-Inv scope rows (in_flight a) l h inv = inv
  store_started-Inv scope rows (done a c) l h inv = inv

  store_answered-Inv :
      {A : Type 0} (scope : AttemptKey) (rows : List AttemptRow) (answer : Result A) (l : Ledger)
      → P scope rows
      → Inv l
      → Inv (store_answered scope rows answer l)
  store_answered-Inv scope rows (ok a) l h inv = insert-Inv scope rows l h inv
  store_answered-Inv scope rows (err x) l h inv = inv
  store_answered-Inv scope rows panic l h inv = inv

  -- A call that its guard or its scope refuses leaves the ledger.
  guarded-Inv :
      {B : Type 0} (b : Bool) (x : Result B) (scoped : Result AttemptKey)
      (k : AttemptKey → Ledger → Ledger × Result B) (l : Ledger)
      → Inv l
      → ((scope : AttemptKey) → Inv (k scope l).0)
      → Inv (if b then (l, x) else chain (l, scoped) k).0
  guarded-Inv true x scoped k l inv h = inv
  guarded-Inv false x (ok scope) k l inv h = h scope
  guarded-Inv false x (err y) k l inv h = inv
  guarded-Inv false x panic k l inv h = inv

  module _ (kept : IsKept) where
    step-Inv : (l : Ledger) (m : Move) → Inv l → Inv (step l m)
    unfolding step begin finish observe
    step-Inv l (begins ctx key message now) inv =
        guarded-Inv (key == "" || message == "") (err invalid_attempt) (scoped_key ctx key) _ l inv
          (λ scope.
            store_started-Inv scope _ _ l
              (kept.begun scope message now (rows_of scope l) (inv scope)) inv)
    step-Inv l (finishes ctx o) inv =
        guarded-Inv (not (valid_outcome o)) (err invalid_attempt) (scoped_key ctx o.key) _ l inv
          (λ scope.
            store_answered-Inv scope _ _ l (kept.finished scope o (rows_of scope l) (inv scope))
              inv)
    step-Inv l (observes ctx o now) inv =
        guarded-Inv (not (valid_observation o)) (err invalid_attempt) (scoped_key ctx o.key) _ l inv
          (λ scope.
            store_answered-Inv scope _ _ l (kept.observed scope o now (rows_of scope l) (inv scope))
              inv)

    pub run-Inv : (l : Ledger) (ms : List Move) → Inv l → Inv (run l ms)
    unfolding run
    run-Inv l [] inv = inv
    run-Inv l (m ∷ ms) inv = run-Inv (step l m) ms (step-Inv l m inv)
