-- ===== src/Domain.antt =====
-- libs/backend/go/domain: the outcome of a decision of an aggregate, and `DecideOver`.
-- A Go pair (Accepted, *Rejection) of which exactly one is meant is a `Decision`; a method with a
-- pointer receiver returns the aggregate it leaves. The copies that Go takes of slices are the
-- values themselves, since a model value is never mutated.
use dmpf.Prelude.{String, List, []}

-- A `Code` is its text.
abbrev pub Code : Type 0
Code = String

pub record Detail : Type 0 where
  pub key : String
  pub value : String

pub record Rejection : Type 0 where
  pub code : Code
  pub message : String
  pub details : List Detail

-- `E` is the type of the events that stand behind the interface DomainEvent.
pub record Accepted (E R : Type 0) : Type 0 where
  pub response : R
  pub events : List E

pub data Decision (E R : Type 0) : Type 0 where
  accepted : Accepted E R → Decision E R
  rejected : Rejection → Decision E R

module _ {E R : Type 0} where
  abbrev pub accept : R → List E → Decision E R
  accept r es = accepted (record { response = r; events = es })

  abbrev pub refuse : Code → String → List Detail → Decision E R
  refuse c m ds = rejected (record { code = c; message = m; details = ds })

  -- `decide` may mutate the copy that it is given, so it returns the copy beside its decision.
  abbrev pub choose : {A : Type 0} → A → A × Decision E R → A × Decision E R
  choose target (next, accepted a) = (next, accepted a)
  choose target (next, rejected r) = (target, rejected r)

  unfoldable pub decide_over :
      {A : Type 0} → A → (A → A) → (A → A × Decision E R) → A × Decision E R
  decide_over target copy_of decide = choose target (decide (copy_of target))

  -- The events of an outcome: a refusal carries none.
  abbrev pub events_of : Decision E R → List E
  events_of (accepted a) = a.events
  events_of (rejected r) = []
