-- ===== src/Application/Decide.antt =====
-- libs/backend/go/application/{outcome,decide,enqueue,message_context,identity}.go: the steps of a use
-- case inside its transaction. `A` is the aggregate; a decision may mutate it, so it returns what it leaves.
pub mod Publish
pub mod Writes
pub mod Identities
use dmpf.Prelude.{
  ℕ, suc, ◌+◌, ◌%◌, String, string_eq, Bool, true, false, List, [], ◌∷◌, ◌++◌, Option, none, some,
  ◌==◌, ltb, ◌||◌, if◌then◌else◌, length, any, Eq,
}
use dmpf.Prelude.Int.{ℤ, ltb_ℤ, pos}
use dmpf.Prelude.Word.{full_range}
use dmpf.Domain.{Rejection, Accepted, Decision, accepted, rejected}
use dmpf.Ports.Results.{
  Result, ok, err, panic, ◌>>=◌, Error, is_not_found, already_exists, not_found, unique_violation,
  failure,
}
use dmpf.Ports.Transaction.{MessageContext, OutboxEntry, Transaction, chain}

pub data Outcome (R : Type 0) : Type 0 where
  accept : R → Outcome R
  refuse : Rejection → Outcome R

pub record Origin : Type 0 where
  pub destination : String
  pub aggregate_type : String
  pub aggregate_id : String

pub record Identity : Type 0 where
  pub occurred_at : ℤ
  pub message_ids : List String

-- The loop of ResolveIdentity over the identifiers that the generator hands out in turn.
unfoldable pub take_ids : List String → List String → Result (List String)
take_ids taken [] = ok taken
take_ids taken (next ∷ supply) =
    let rest = take_ids (taken ++ next ∷ []) supply in
    if next == "" || any (λ t. t == next) taken then panic else rest

-- A message that starts a chain carries its own identifier as its cause.
abbrev pub message_context_for : MessageContext → String → MessageContext
message_context_for attached id =
    if attached.causation_id == "" then record attached { causation_id = id } else attached

module _ {Ev : Type 0} where
  abbrev pub entry_of : MessageContext → Identity → Origin → ℕ → Ev → String → OutboxEntry Ev
  entry_of attached identity origin written event id = record {
    message_id = id;
    occurred_at = identity.occurred_at;
    intent = record { destination = origin.destination; partition_key = origin.aggregate_id };
    aggregate_type = origin.aggregate_type;
    aggregate_id = origin.aggregate_id;
    aggregate_version = written;
    event = event;
    context = message_context_for attached id;
  }

module _ {W Ident S Ev : Type 0} (tx : Transaction W Ident S Ev) (attached : MessageContext)
    (identity : Identity) (origin : Origin) where
  -- An identifier that is missing is an index out of range.
  unfoldable pub enqueue_each : ℕ → List Ev → List String → W → W × Result (Unit {0})
  enqueue_each written [] ids w = (w, ok tt)
  enqueue_each written (event ∷ events) [] w = (w, panic)
  enqueue_each written (event ∷ events) (id ∷ ids) w =
      chain (tx.enqueue (entry_of attached identity origin written event id) w)
        (λ done. enqueue_each written events ids)

  unfoldable pub enqueue : ℕ → List Ev → W → W × Result (Unit {0})
  unfolding enqueue_each
  enqueue written events w =
      if ltb (length identity.message_ids) (length events)
      then (w, panic)
      else enqueue_each written events identity.message_ids w

-- The loaders of a use case.
module _ {Ident S A : Type 0} where
  abbrev pub or_new : (Ident → A) → (S → A) → Ident → Result (S × ℕ) → Result (A × ℕ)
  or_new new from id (ok (snapshot, stored)) = ok (from snapshot, stored)
  or_new new from id (err x) = if is_not_found x then ok (new id, 0) else err x
  or_new new from id panic = panic

  abbrev pub existing : (S → A) → Ident → Result (S × ℕ) → Result (A × ℕ)
  existing from id (ok (snapshot, stored)) = ok (from snapshot, stored)
  existing from id (err x) = err x
  existing from id panic = panic

  abbrev pub absent : (Ident → A) → Ident → Result (S × ℕ) → Result (A × ℕ)
  absent new id (ok (snapshot, stored)) = err already_exists
  absent new id (err x) = if is_not_found x then ok (new id, 0) else err x
  absent new id panic = panic

abbrev pub declared_rejection : Error → Option Rejection
declared_rejection (unique_violation table constraint r) = r
declared_rejection (failure c r cause) = declared_rejection cause
declared_rejection _ = none

module _ {W Ident S Ev A R : Type 0} (tx : Transaction W Ident S Ev) (attached : MessageContext)
    (identity : Identity) (origin : Origin) (snapshot : A → S) where
  -- Steps 6 and 7, once the save is done.
  unfoldable pub publish : Accepted Ev R → ℕ → W × Result (Unit {0}) → W × Result (Outcome R)
  publish acc stored (w, ok done) =
      chain (enqueue tx attached identity origin ((stored + 1) % full_range) acc.events w)
        (λ sent after. (after, ok (accept acc.response)))
  publish acc stored (w, err x) = elim (declared_rejection x) [
    | some r ↦ (w, ok (refuse r))
    | none ↦ (w, err x)
  ]
  publish acc stored (w, panic) = (w, panic)

  unfoldable pub settle : Ident → ℕ → A × Decision Ev R → W → W × Result (Outcome R)
  unfolding publish
  settle id stored (next, rejected r) w = (w, ok (refuse r))
  settle id stored (next, accepted acc) w = publish acc stored (tx.save id (snapshot next) stored w)

  -- `Decide`: `load` is the loader applied to what the reader answers.
  unfoldable pub decide :
      Ident
      → (Ident → Result (S × ℕ) → Result (A × ℕ))
      → (A → A × Decision Ev R)
      → W
      → W × Result (Outcome R)
  unfolding settle
  decide id load choose w =
      chain (w, load id (tx.load id w)) (λ found. settle id found.1 (choose found.0))
