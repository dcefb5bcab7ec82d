-- ===== src/Memory/Attempts/Ledger/OneOpen.antt =====
-- One command, one attempt at a time: the ledger under the calls of any contexts.
use dmpf.Prelude.{List, []}
use dmpf.Prelude.Maps.{lookup}
use dmpf.Memory.Rows.{row_key_eq}
use dmpf.Memory.Attempts.Ledger.{AttemptKey, rows_of}
use dmpf.Memory.Attempts.Ledger.Calls.{Move, run, IsKept, run-Inv}
use dmpf.Memory.Attempts.Ledger.Chain.{
  IsChain, begin_in-IsChain, finish_in-IsChain, observe_in-IsChain,
}

IsChain-IsKept : IsKept (λ scope rows. IsChain rows)
IsChain-IsKept = record {
  begun = begin_in-IsChain;
  finished = λ scope. finish_in-IsChain;
  observed = λ scope. observe_in-IsChain;
}

-- However calls of any tenants follow one another, at most the last attempt of a key is open, an open
-- attempt has neither observations nor conflicts, and no attempt holds more of them than the ceiling.
pub run-IsChain : (ms : List Move) (scope : AttemptKey) → IsChain (rows_of scope (run [] ms))
unfolding rows_of lookup
run-IsChain ms = run-Inv (λ scope rows. IsChain rows) IsChain-IsKept [] ms (λ scope. tt)
