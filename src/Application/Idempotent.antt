-- ===== src/Application/Idempotent.antt =====
-- libs/backend/go/application/idempotent.go: RunIdempotent, one command through the inbox of its context.
-- A nil Fingerprint and a nil Digest are `none`. The mark is what MarkIdempotency leaves in the slot.
pub mod Once
pub mod Replays
use Prim.Native.Char.{Char}
use Prim.Native.String.{◌++◌ as text_append}
use dmpf.Prelude.{
  ℕ, ◌+◌, ◌/◌, ◌%◌, String, string_eq, Bool, true, false, not, List, [], ◌∷◌, ◌++◌, Option, none,
  some, ◌==◌, if◌then◌else◌, ltb, eqb,
}
use dmpf.Prelude.Int.{ℤ, pos, min_ℤ, max_ℤ}
use dmpf.Prelude.Word.{add64, sub64}
use dmpf.Prelude.Decimal.{digit}
use dmpf.Ports.Results.{
  Result, ok, err, panic, ◌>>=◌, Error, idempotency_key_absent, idempotency_key_invalid,
  idempotency_mismatch, idempotency_in_flight, incomplete_command, register_timeout, failure,
}
use dmpf.Ports.Context.{Context, ExecutionContext, require_execution_context}
use dmpf.Ports.Inbox.{
  Status, processed, rejected, Receipt, Completion, Reception, first, was_processed, was_rejected,
  collision, Inbox,
}
use dmpf.Ports.IdempotencyKey.{
  IdempotencyOutcome, claim_new, claim_replayed, claim_mismatch, claim_in_flight,
  valid_idempotency_key,
}
use dmpf.Ports.Transaction.{chain}
use dmpf.Application.Decide.{Outcome, accept, refuse}
use dmpf.Application.OutcomeCodec.{Texts, OutcomeCodec, encode_outcome, decode_outcome}
use dmpf.Application.Fingerprint.{Fingerprint, under}

abbrev pub deadline_margin : ℤ
deadline_margin = pos 100000000

abbrev pub wait_until : ℤ → ℤ → ℤ → ℤ
wait_until now wait deadline = max_ℤ (min_ℤ (add64 now wait) (sub64 deadline deadline_margin)) now

-- fmt.Sprintf("%x", …) of a byte slice.
abbrev pub hex_digit : ℕ → Char
hex_digit n =
    if ltb n 10
    then digit n
    else if eqb n 10
    then "a"
    else if eqb n 11
    then "b"
    else if eqb n 12
    then "c"
    else if eqb n 13
    then "d"
    else if eqb n 14
    then "e"
    else "f"

unfoldable pub hex : List ℕ → String
hex [] = ""
hex (b ∷ bs) = String.◌∷◌ (hex_digit (b / 16)) (String.◌∷◌ (hex_digit (b % 16)) (hex bs))

pub record IdempotencyPolicy : Type 0 where
  pub wait : ℤ
  pub retention : ℤ
  pub digest : Option (List ℕ → List ℕ)

pub record IdempotentCommand (W P R : Type 0) : Type 0 where
  pub inbox : Inbox W P
  pub consumer : String
  pub operation : String
  pub fingerprint : Option Fingerprint
  pub now : ℤ
  pub policy : IdempotencyPolicy
  pub codec : OutcomeCodec R
  pub run : W → W × Result (Outcome R)

-- An outcome, and whether it was replayed.
abbrev pub Answer : Type 0 → Type 0
Answer R = Outcome R × Bool

abbrev pub Run : Type 0 → Type 0 → Type 0
Run W R = W × (Option IdempotencyOutcome × Result (Answer R))

unfoldable pub key_of : Context → Result String
key_of ctx = elim ctx.idempotency_key [
  | none ↦ err idempotency_key_absent
  | some key ↦
      if key == ""
      then err idempotency_key_absent
      else if not (valid_idempotency_key key)
      then err idempotency_key_invalid
      else ok key
]

-- errors.Is of the two sentinels.
abbrev pub is_mismatch : Error → Bool
is_mismatch idempotency_mismatch = true
is_mismatch (failure c r cause) = is_mismatch cause
is_mismatch _ = false

abbrev pub is_register_timeout : Error → Bool
is_register_timeout register_timeout = true
is_register_timeout (failure c r cause) = is_register_timeout cause
is_register_timeout _ = false

abbrev pub status_of : {R : Type 0} → Outcome R → Status
status_of (accept r) = processed
status_of (refuse r) = rejected

module _ (t : Texts) where
  -- The PayloadHash: the digest of the command under its operation.
  unfoldable pub payload_hash : String → Option Fingerprint → IdempotencyPolicy → Result String
  payload_hash operation none policy = err incomplete_command
  payload_hash operation (some f) policy = elim policy.digest [
    | none ↦ err incomplete_command
    | some digest ↦ ok (hex (digest (under t operation f)))
  ]

  module _ {W P R : Type 0} (cmd : IdempotentCommand W P R) where
    -- The guards before the inbox is reached, and the receipt that is registered.
    unfoldable pub receipt_of : Context → Result Receipt
    receipt_of ctx = do
      key ← key_of ctx
      execution ← require_execution_context ctx
      hash ← payload_hash cmd.operation cmd.fingerprint cmd.policy
      ok (record {
        consumer = cmd.consumer;
        message_id = key;
        message_type = cmd.operation;
        payload_hash = hash;
        received_at = cmd.now;
        wait_until = wait_until cmd.now cmd.policy.wait execution.deadline;
        expires_at = add64 cmd.now cmd.policy.retention;
      })

    abbrev pub completion_of : Outcome R → Completion
    completion_of ran = record {
      status = status_of ran;
      at = cmd.now;
      last_error = "";
      outcome = encode_outcome t cmd.codec ran;
    }

    unfoldable pub run_first : P → W → W × Result (Answer R)
    run_first pending w = chain (cmd.run w) (λ ran after.
        chain (cmd.inbox.complete pending (completion_of ran) after)
          (λ done last. (last, ok (ran, false))))

    abbrev pub replay : List ℕ → Result (Answer R)
    replay stored = decode_outcome t cmd.codec stored >>= λ outcome. ok (outcome, true)

    unfoldable pub match_reception : Reception P → W → W × Result (Answer R)
    match_reception (first pending) w = run_first pending w
    match_reception (was_processed stored) w = (w, replay stored)
    match_reception (was_rejected stored) w = (w, replay stored)
    match_reception collision w = (w, err idempotency_mismatch)

    abbrev pub mark_of : Result (Answer R) → Option IdempotencyOutcome
    mark_of (ok (outcome, true)) = some claim_replayed
    mark_of (ok (outcome, false)) = some claim_new
    mark_of (err x) = if is_mismatch x then some claim_mismatch else none
    mark_of panic = none

    abbrev pub marked : W × Result (Answer R) → Run W R
    marked (w, r) = (w, (mark_of r, r))

    abbrev pub refused_registration : Error → W → Run W R
    refused_registration x w =
        if is_register_timeout x
        then (w, (some claim_in_flight, err idempotency_in_flight))
        else (w, (none, err x))

    abbrev pub registered : W × Result (Reception P) → Run W R
    registered (w, ok reception) = marked (match_reception reception w)
    registered (w, err x) = refused_registration x w
    registered (w, panic) = (w, (none, panic))

    unfoldable pub run_idempotent : Context → W → Run W R
    run_idempotent ctx w = elim (receipt_of ctx) [
      | ok receipt ↦ registered (cmd.inbox.register receipt w)
      | err x ↦ (w, (none, err x))
      | panic ↦ (w, (none, panic))
    ]
