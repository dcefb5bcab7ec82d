-- ===== src/Application/Execute.antt =====
-- libs/backend/go/application/execute.go, query.go: a command and a query from their authorization to
-- their reports, over the in-memory store. `before` and `queued` are what the context says before and
-- after the wait for the transaction, `now` is the reading of the clock and `supply` what the generator of
-- identifiers hands out. The context that BeginOperation derives is the one it is given.
pub mod Again
use dmpf.Prelude.{
  ℕ, String, List, [], ◌∷◌, Bool, true, false, Option, none, some, Eq, if◌then◌else◌,
}
use dmpf.Prelude.Int.{ℤ}
use dmpf.Ports.Results.{Result, ok, err, panic, ◌>>=◌, Error}
use dmpf.Ports.Context.{Context}
use dmpf.Ports.Inbox.{Inbox}
use dmpf.Ports.Instrumentation.{
  OutcomeCategory, outcome_accepted, outcome_rejected, outcome_failed, Report, begun, ended,
  audited, authorization_result,
}
use dmpf.Memory.Inbox.{TxInbox, Pending}
use dmpf.Memory.Store.{Store, Tx, within}
use dmpf.Memory.Store.Receptions.{inbox_of}
use dmpf.Application.Decide.{Outcome, accept, refuse, Identity, take_ids}
use dmpf.Application.OutcomeCodec.{Texts, OutcomeCodec}
use dmpf.Application.Fingerprint.{Fingerprint}
use dmpf.Application.Authorize.{Authorize}
use dmpf.Application.Idempotent.{IdempotencyPolicy, IdempotentCommand, Answer, run_idempotent}

pub record Executor (Op : Type 0) : Type 0 where
  pub inbox : TxInbox
  pub consumer : String
  pub policy : IdempotencyPolicy
  pub authorize : Authorize Op

pub record Command (W Op R : Type 0) : Type 0 where
  pub operation : String
  pub object : String
  pub input : Op
  pub fingerprint : Option Fingerprint
  pub codec : OutcomeCodec R
  pub run : Context → Identity → W → W × Result (Outcome R)

abbrev pub category : {R : Type 0} → Outcome R → OutcomeCategory
category (accept r) = outcome_accepted
category (refuse r) = outcome_rejected

unfoldable pub resolve_identity : ℤ → List String → Result Identity
resolve_identity now supply = do
  ids ← take_ids [] supply
  ok (record { occurred_at = now; message_ids = ids })

module _ (t : Texts) {Ident S Ev Op R : Type 0} ⦃e : Eq Ident⦄ (x : Executor Op)
    (c : Command (Tx Ident S Ev) Op R) (ctx : Context) where
  abbrev pub idempotent_command : Identity → IdempotentCommand (Tx Ident S Ev) Pending R
  idempotent_command identity = record {
    inbox = inbox_of x.inbox ctx;
    consumer = x.consumer;
    operation = c.operation;
    fingerprint = c.fingerprint;
    now = identity.occurred_at;
    policy = x.policy;
    codec = c.codec;
    run = c.run ctx identity;
  }

  -- The callback of the transaction, without the mark that it leaves on the carrier.
  abbrev pub callback : Identity → Tx Ident S Ev → Tx Ident S Ev × Result (Answer R)
  callback identity tx =
      let ran = run_idempotent t (idempotent_command identity) ctx tx in (ran.0, ran.1.1)

  abbrev pub audit_of : Identity → Outcome R → Report
  audit_of identity outcome = audited c.object c.operation (category outcome) identity.occurred_at

  unfoldable pub conclude :
      Identity
      → Store Ident S Ev × Result (Answer R)
      → Store Ident S Ev × (List Report × Result (Outcome R))
  conclude identity (s, ok (outcome, replayed)) = (
    s,
    (
      begun c.operation
          ∷ ended (category outcome) none
          ∷ (if replayed then [] else audit_of identity outcome ∷ []),
      ok outcome,
    ),
  )
  conclude identity (s, err x) =
      (s, (begun c.operation ∷ ended outcome_failed (some x) ∷ [], err x))
  conclude identity (s, panic) = (s, (begun c.operation ∷ [], panic))

  unfoldable pub authorized :
      ℤ
      → List String
      → Option Error
      → Option Error
      → Store Ident S Ev
      → Store Ident S Ev × (List Report × Result (Outcome R))
  authorized now supply before queued s = elim (resolve_identity now supply) [
    | ok identity ↦ conclude identity (within before queued (callback identity) s)
    | err x ↦ (s, (begun c.operation ∷ [], err x))
    | panic ↦ (s, (begun c.operation ∷ [], panic))
  ]

  unfoldable pub execute :
      ℤ
      → List String
      → Option Error
      → Option Error
      → Store Ident S Ev
      → Store Ident S Ev × (List Report × Result (Outcome R))
  execute now supply before queued s = elim (x.authorize ctx c.input) [
    | ok allowed ↦ authorized now supply before queued s
    | err x ↦ (s, (begun c.operation ∷ authorization_result x ∷ [], err x))
    | panic ↦ (s, (begun c.operation ∷ [], panic))
  ]

-- `load` is the query on the state that its reader reads.
abbrev pub loaded : {S : Type 0} → String → Result S → List Report × Result S
loaded operation (ok snapshot) = (begun operation ∷ ended outcome_accepted none ∷ [], ok snapshot)
loaded operation (err x) = (begun operation ∷ ended outcome_failed (some x) ∷ [], err x)
loaded operation panic = (begun operation ∷ [], panic)

unfoldable pub query :
    {Op S : Type 0}
    → Authorize Op
    → String
    → Op
    → (Context → Result S)
    → Context
    → List Report × Result S
query authorize operation input load ctx = elim (authorize ctx input) [
  | ok allowed ↦ loaded operation (load ctx)
  | err x ↦ (begun operation ∷ authorization_result x ∷ [], err x)
  | panic ↦ (begun operation ∷ [], panic)
]
