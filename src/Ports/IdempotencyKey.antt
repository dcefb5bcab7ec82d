-- ===== src/Ports/IdempotencyKey.antt =====
-- libs/backend/go/ports/idempotency_key.go: the format of the key of a command, and how its claim ended.
-- The slot of the carrier that the edge reads is the mark that a function returns beside its result.
use Prim.Native.Char.{code}
use Prim.Native.String.{count}
use dmpf.Prelude.{ℕ, String, Bool, true, ◌&&◌, ◌||◌, ltb, leb, eqb}

-- `[A-Za-z0-9._-]`
abbrev pub key_symbol : ℕ → Bool
key_symbol n =
    (leb b'A' n && leb n b'Z')
    || (leb b'a' n && leb n b'z')
    || (leb b'0' n && leb n b'9')
    || eqb n b'.'
    || eqb n b'_'
    || eqb n b'-'

unfoldable pub all_key_symbols : String → Bool
all_key_symbols String.[] = true
all_key_symbols (String.◌∷◌ c s) = key_symbol (code c) && all_key_symbols s

unfoldable pub valid_idempotency_key : String → Bool
valid_idempotency_key key = ltb 0 (count key) && leb (count key) 128 && all_key_symbols key

pub data IdempotencyOutcome : Type 0 where
  claim_new claim_replayed claim_mismatch claim_in_flight : IdempotencyOutcome

abbrev pub outcome_text : IdempotencyOutcome → String
outcome_text claim_new = "new"
outcome_text claim_replayed = "replayed"
outcome_text claim_mismatch = "mismatch"
outcome_text claim_in_flight = "in_flight"
