-- ===== src/Examples/Dispatching.antt =====
-- An external command, dispatched and delivered again.
use dmpf.Prelude.{
  ℕ, ◌+◌, ◌*◌, ◌≤◌, length, All, eqb, if◌then◌else◌, ◌≡◌, refl, inl, string_eq, nat_eq, true, false,
  String, List, [], ◌∷◌, ◌++◌, none, some, arith,
}
use dmpf.Prelude.Int.{pos, ◌≤ℤ◌}
use dmpf.Prelude.Maps.{lookup, insert}
use dmpf.Ports.Results.{Result, ok, err, not_found}
use dmpf.Ports.Inbox.{Receipt}
use dmpf.Ports.Attempts.{
  accepted, ExternalProfile, native, on_submit, Attempt, AttemptStart, started,
}
use dmpf.Memory.Rows.{row_key_eq, scoped_key}
use dmpf.Memory.Inbox.{TxInbox, register, complete, filed_id, receive, classify, inbox_key_eq}
use dmpf.Memory.Attempts.Row.{no_observation}
use dmpf.Memory.Attempts.Ledger as Ledger
use dmpf.Memory.Attempts.Ledger.Calls as Calls
use dmpf.Memory.Store.{Tx, new_store, within, open_tx, close, commit}
use dmpf.Application.NextStep.{next_step}
use dmpf.Application.Disposition.{Disposition, r1d1, r2}
use dmpf.Application.Dispatch as Dispatch
use dmpf.Application.Dispatch.{
  ExternalDispatch, ExternalStep, Submission, run, on_start, submit, settle, settle_in,
  settle_reception,
}
use dmpf.Application.Dispatch.Stored.{World, ports_over}
use dmpf.Application.Dispatch.Redelivery.{two_transactions}
use dmpf.Application.Dispatch.Once.{IsRedelivery, IsLater, dispatch_once}
use dmpf.Application.Profile.{
  OutboundIntent, validate_external_profile, valid_key_alphabet, distinct_symbols, symbol_bits,
  derive_outbound_key,
}
use dmpf.Application.Profile.Keys.{Among, alphabet_of, derive_outbound_key_strong}
use dmpf.Ports.Attempts.{cursor_of}
use dmpf.Application.Sweep.{sweep_stale}
use dmpf.Application.Sweep.Pages.{IsLive, sweep_stale_all}
use dmpf.Examples.Texts.{codes}
use dmpf.Examples.Storage.{here}

abbrev messages : TxInbox
messages = record { consumer = "payments"; commands = false }

abbrev message : Receipt
message = record {
  consumer = "payments";
  message_id = "m-1";
  message_type = "pay";
  payload_hash = "h1";
  received_at = pos 10;
  wait_until = pos 20;
  expires_at = pos 0;
}

abbrev profile : ExternalProfile
profile = record {
  key_semantics = native;
  efficacy = on_submit;
  quiescence = pos 0;
  authoritative_absence = false;
  max_queries = pos 3;
  key_alphabet = "0123456789abcdef";
  key_max_length = pos 32;
}

abbrev command : ExternalDispatch
command = record {
  receipt = message;
  key = "pay-1";
  profile = profile;
  query_available = true;
  stale_after = pos 100;
  clock = record { at_begin = pos 10; at_resume = pos 10; at_finish = pos 11; at_settle = pos 12 };
}

abbrev redelivered : ExternalDispatch
redelivered = record command {
  receipt = record message { received_at = pos 50 };
  clock = record { at_begin = pos 50; at_resume = pos 50; at_finish = pos 51; at_settle = pos 52 };
}

abbrev accepts : List String → Submission
accepts sent = record { class = accepted; observation = no_observation; cause = not_found }

abbrev applies : ExternalStep → Tx String String ℕ → Tx String String ℕ × Result (Unit {0})
applies step tx = (record tx { writes = tx.writes + 1 }, ok tt)

abbrev world : World String String ℕ
world = record { store = new_store; sent = [] }

abbrev first_attempt : Attempt
first_attempt = record {
  tenant = "acme";
  key = "pay-1";
  n = 1;
  message_id = "m-1";
  started_at = pos 10;
}

begun : World String String ℕ × Result AttemptStart
begun = (ports_over here messages accepts applies).store_begin "pay-1" "m-1" (pos 10) world

settled : World String String ℕ × Result Disposition
settled = run (ports_over here messages accepts applies) command world

begins : begun ≡ (begun.0, ok (started first_attempt))
unfolding begun within open_tx close commit Ledger.begin scoped_key lookup insert Ledger.rows_of
begins = refl

settles : settled ≡ (settled.0, ok r1d1)
unfolding settled run on_start submit settle settle_in settle_reception Dispatch.finish within
    open_tx close commit Ledger.begin Ledger.finish Ledger.rows_of scoped_key lookup insert register
    receive classify filed_id complete next_step
settles = refl

command-IsRedelivery : IsRedelivery messages here here command redelivered
unfolding filed_id
command-IsRedelivery = record {
  same_key = refl;
  same_scope = refl;
  same_message = refl;
  same_consumer = refl;
  same_hash = refl;
  same_filing = refl;
  held = inl refl;
}

-- Another message of the key began an attempt in between, and another command was sent.
abbrev meanwhile : List Calls.Move
meanwhile = Calls.begins here "pay-1" "m-2" (pos 30) ∷ []

between : World String String ℕ
between = record {
  store = record (settled.0.store) {
    attempts = Calls.run settled.0.store.attempts meanwhile;
    fail_next_commit = none;
  };
  sent = settled.0.sent ++ "pay-2" ∷ [];
}

between-IsLater : IsLater (settled.0) between meanwhile
unfolding between
between-IsLater = record { calls = refl; holds = λ key row there. there; unarmed = refl }

dispatch_once_example :
    (settled.0.sent ≡ [] ++ "pay-1" ∷ [])
    × (run (ports_over here messages accepts applies) redelivered between
        ≡ (two_transactions between, ok r2))
unfolding begun settled
dispatch_once_example =
    dispatch_once messages here accepts applies (λ step tx. refl) command redelivered here
      command-IsRedelivery accepts applies world (begun.0) (settled.0) between first_attempt
      meanwhile begins refl settles between-IsLater

-- A digest of 32 bytes.
abbrev digest : List ℕ → List ℕ
digest bytes =
    1 ∷ 2 ∷ 3 ∷ 4 ∷ 5 ∷ 6 ∷ 7 ∷ 8 ∷ 9 ∷ 10 ∷ 11 ∷ 12 ∷ 13 ∷ 14 ∷ 15 ∷ 16 ∷ 17 ∷ 18 ∷ 19 ∷ 20 ∷ 21
    ∷ 22 ∷ 23 ∷ 24 ∷ 25 ∷ 26 ∷ 27 ∷ 28 ∷ 29 ∷ 30 ∷ 31 ∷ 32 ∷ []

abbrev intent : OutboundIntent
intent = record {
  tenant = "acme";
  destination = "bank";
  operation = "pay";
  intent_id = "i-1";
  generation = pos 0;
}

valid : validate_external_profile codes profile ≡ ok tt
unfolding validate_external_profile valid_key_alphabet distinct_symbols symbol_bits
valid = refl

derive_outbound_key_strong_example :
    (key : List ℕ) × (derive_outbound_key codes (some digest) profile intent ≡ ok key)
    × (pos (length key) ≤ℤ pos 32)
    × (128 ≤ symbol_bits (alphabet_of codes profile) * length key)
    × All (Among (alphabet_of codes profile)) key
derive_outbound_key_strong_example =
    derive_outbound_key_strong codes digest profile intent (λ bytes. refl) (omega arith) refl valid

-- The second attempt of a page fails to close.
abbrev closes : Attempt → ℕ → ℕ × Result (Unit {0})
closes a s = (s + 1, if eqb a.n 2 then err not_found else ok tt)

closes-IsLive : IsLive (λ s. none) closes
closes-IsLive = record { live = λ s. refl; returns = λ a s. ground arith }

abbrev page : List Attempt
page = first_attempt ∷ record first_attempt { n = 2 } ∷ []

sweep_stale_all_example :
    (sweep_stale (λ s. none) closes (ok page) (cursor_of first_attempt) 0 ≡ (
      2,
      ok (
        record { seen = 2; swept = 1; next = cursor_of (record first_attempt { n = 2 }) },
        not_found ∷ [],
      ),
    ))
    × (1 + 1 ≡ 2)
sweep_stale_all_example =
    sweep_stale_all (λ s. none) closes closes-IsLive page (cursor_of first_attempt) 0
