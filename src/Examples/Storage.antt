-- ===== src/Examples/Storage.antt =====
-- A store with one table and two tenants.
use dmpf.Prelude.{
  if◌then◌else◌, ◌==◌, ℕ, ◌+◌, ◌%◌, ◌≡◌, refl, ◌≢◌, ◌⊎◌, String, string_eq, nat_eq, [], ◌∷◌, ◌++◌,
  Option, none, some, All, arith,
}
use text.Mathlib.TextEquality.{eq_iff}
use dmpf.Prelude.Int.{pos}
use dmpf.Prelude.Word.{full_range}
use dmpf.Ports.Results.{Result, ok, err, Error, version_conflict, foreign}
use dmpf.Ports.Context.{Context, ExecutionContext, ExecutionContextSpec}
use dmpf.Ports.Context.Validity.{granted}
use dmpf.Memory.Rows.{
  RowKey, row_key_eq, Table, Tables, load_key, version_at, scoped_key, violation, violation_from,
  breaks, collides, same_columns,
}
use dmpf.Prelude.Maps.{lookup, insert}
use dmpf.Memory.Rows.Uniqueness.{IsApart}
use dmpf.Memory.Store.{Tx, Store, rows_of, save_as, save, load, within, open_tx, close, commit}
use dmpf.Memory.Store.Saves.{row_at, save_as-load_key, save_as_conflict, save_as-IsApart}
use dmpf.Memory.Store.Tenancy.{save_isolation, load_isolation}
use dmpf.Memory.Store.Atomicity.{opened, within_failed, within_succeeded, SameContents}

abbrev pub caller : ExecutionContextSpec
caller = record {
  request_id = "r-1";
  correlation_id = "c-1";
  causation_id = none;
  trace_context = "00-1";
  subject = some "ana";
  tenant = some "acme";
  permissions = some ("write" ∷ []);
  deadline = pos 1000;
  locale = "pt-BR";
}

abbrev pub here : Context
here = record { execution = some (granted caller); idempotency_key = none; cancelled = none }

-- The name in the snapshot is unique within the tenant.
abbrev pub people : Table String String
people = record {
  name = "people";
  show_id = λ id. id;
  unique =
      record {
        name = "people-name";
        key = λ s. some (s ∷ []);
        rejection = record { code = "taken"; message = "name is taken"; details = [] };
      }
      ∷ [];
}

abbrev pub ours : RowKey String
ours = record { tenant = "acme"; id = "p-1" }

abbrev theirs : RowKey String
theirs = record { tenant = "rival"; id = "p-1" }

abbrev pub stored : Tables String String
stored =
    (
      "people",
      (ours, record { snapshot = "eva"; version = 3 })
          ∷ (theirs, record { snapshot = "bob"; version = 8 })
          ∷ [],
    )
    ∷ []

abbrev pub session : Tx String String ℕ
session = record { tables = stored; inbox = []; outbox = []; attempts = []; writes = 0 }

first_save : (save_as people ours "lia" 3 session).1 ≡ ok tt
unfolding save_as rows_of lookup violation violation_from breaks collides same_columns
first_save = refl

save_as-load_key_example :
    let q = (save_as people ours "lia" 3 session).0 in
    (version_at ours (rows_of "people" stored) ≡ 3)
    × (load_key people ours q.tables ≡ ok ("lia", (3 + 1) % full_range))
    × ((name : String) (other : RowKey String)
        → ("people" ≢ name) ⊎ (ours ≢ other)
        → row_at name other q.tables ≡ row_at name other stored)
    × (q.inbox ≡ [])
    × (q.outbox ≡ [])
save_as-load_key_example = save_as-load_key people ours "lia" 3 session first_save

save_as_conflict_example :
    let q = (save_as people ours "lia" 3 session).0 in
    ((save_as people ours "noa" 3 q).1 ≡ err version_conflict)
    × (load_key people ours (save_as people ours "noa" 3 q).0.tables
        ≡ ok ("lia", (3 + 1) % full_range))
save_as_conflict_example =
    save_as_conflict people ours "lia" "noa" 3 session (omega arith) first_save

-- The name may be NULL, and `nil` is.
abbrev guests : Table String String
guests = record people {
  unique =
      record {
        name = "guests-name";
        key = λ s. if s == "nil" then none else some (s ∷ []);
        rejection = record { code = "taken"; message = "name is taken"; details = [] };
      }
      ∷ [];
}

save_as-IsApart_example :
    ((save_as guests ours "nil" 3 session).1 ≡ ok tt
      → All (λ u. All (IsApart u ours "nil") (rows_of "people" stored)) guests.unique)
    × (version_at ours (rows_of "people" stored) ≡ 3
        → All
            (λ u. (u.key "nil" ≡ none) ⊎ All (IsApart u ours "nil") (rows_of "people" stored))
            guests.unique
        → (save_as guests ours "nil" 3 session).1 ≡ ok tt)
save_as-IsApart_example = save_as-IsApart guests ours "nil" 3 session

elsewhere : (x : ExecutionContext) → some (granted caller) ≡ some x → x.tenant ≢ some "rival"
elsewhere x there same =
    let ours_too : x.tenant ≡ some "acme" = ground arith in
    absurd (ground (arith, eq_iff "acme" "rival"))

save_isolation_example :
    row_at "people" theirs (save people here "p-1" "lia" 3 session).0.tables
    ≡ row_at "people" theirs stored
save_isolation_example =
    save_isolation people here "p-1" session "lia" 3 "people" theirs
      (λ x there same. elsewhere x there same)

loads : load people here "p-1" session ≡ ok ("eva", 3)
unfolding load scoped_key load_key rows_of lookup
loads = refl

load_isolation_example :
    (x : ExecutionContext) × (tenant : String) × (some (granted caller) ≡ some x)
    × (x.tenant ≡ some tenant)
    × (row_at "people" (record { tenant = tenant; id = "p-1" }) stored
        ≡ some (record { snapshot = "eva"; version = 3 }))
load_isolation_example = load_isolation people here "p-1" session "eva" 3 loads

abbrev vault : Store String String ℕ
vault = record {
  tables = stored;
  inbox = [];
  outbox = [];
  attempts = [];
  within_calls = 0;
  commits = 0;
  fail_next_commit = none;
}

-- Two callbacks that save: one returns, one then fails.
abbrev saves : Tx String String ℕ → Tx String String ℕ × Result (Unit {0})
saves = save people here "p-1" "lia" 3

abbrev fails : Tx String String ℕ → Tx String String ℕ × Result (Unit {0})
fails tx = ((saves tx).0, err (foreign 7))

abbrev alive : Option Error
alive = none

saved : (within alive alive saves vault).1 ≡ ok tt
unfolding within open_tx close commit save save_as scoped_key rows_of lookup insert violation
    violation_from breaks collides same_columns
saved = refl

within_succeeded_example :
    let tx = (saves (opened vault)).0 in
    ((saves (opened vault)).1 ≡ ok tt)
    × (alive ≡ none)
    × (alive ≡ none)
    × (vault.fail_next_commit ≡ none)
    × ((within alive alive saves vault).0 ≡ record {
      tables = tx.tables;
      inbox = tx.inbox;
      outbox = [] ++ tx.outbox;
      attempts = tx.attempts;
      within_calls = 0 + 1;
      commits = 0 + 1;
      fail_next_commit = none;
    })
within_succeeded_example = within_succeeded alive alive saves vault tt saved

failed : (within alive alive fails vault).1 ≡ err (foreign 7)
unfolding within open_tx close
failed = refl

within_failed_example : SameContents (within alive alive fails vault).0 vault
within_failed_example =
    within_failed alive alive fails vault (λ a same. absurd (ground (arith, failed)))
