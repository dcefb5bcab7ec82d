-- ===== src/Ports/Transaction.antt =====
-- libs/backend/go/ports/repository.go and outbox.go: what a use case is given inside a transaction.
-- A call that changes the state `W` returns it beside its result.
use dmpf.Prelude.{ℕ, String, ◌≡◌, refl, arith}
use dmpf.Prelude.Int.{ℤ}
use dmpf.Ports.Results.{Result, ok, err, panic}

pub record MessageContext : Type 0 where
  pub correlation_id : String
  pub causation_id : String
  pub traceparent : String
  pub tracestate : String

pub record PublishIntent : Type 0 where
  pub destination : String
  pub partition_key : String

pub record OutboxEntry (Ev : Type 0) : Type 0 where
  pub message_id : String
  pub occurred_at : ℤ
  pub intent : PublishIntent
  pub aggregate_type : String
  pub aggregate_id : String
  pub aggregate_version : ℕ
  pub event : Ev
  pub context : MessageContext

-- The ports of one transaction, under the context of the use case.
pub record Transaction (W Ident S Ev : Type 0) : Type 0 where
  pub load : Ident → W → Result (S × ℕ)
  pub save : Ident → S → ℕ → W → W × Result (Unit {0})
  pub enqueue : OutboxEntry Ev → W → W × Result (Unit {0})

-- The early return on an error.
abbrev pub chain : {W A B : Type 0} → W × Result A → (A → W → W × Result B) → W × Result B
chain (w, ok a) k = k a w
chain (w, err x) k = (w, err x)
chain (w, panic) k = (w, panic)

module _ {W A B : Type 0} where
  -- A chain that succeeds is two steps that do.
  pub chain_ok :
      (s : W × Result A) (k : A → W → W × Result B) (last : W) (b : B)
      → chain s k ≡ (last, ok b)
      → (mid : W) × (a : A) × (s ≡ (mid, ok a)) × (k a mid ≡ (last, ok b))
  chain_ok (w, ok a) k last b h = (w, a, refl, h)
  chain_ok (w, err x) k last b h = absurd (ground arith)
  chain_ok (w, panic) k last b h = absurd (ground arith)
