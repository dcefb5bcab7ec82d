-- ===== src/Memory/Objects/Requests.antt =====
-- libs/backend/go/memory/objectstore.go: what the stores of a bucket are asked, one call after the other.
use dmpf.Prelude.{ℕ, ◌≡◌, refl, String, string_eq, List, [], ◌∷◌, Option, arith}
use dmpf.Prelude.Int.{ℤ}
use dmpf.Ports.Results.{Result, ok, err, panic, ◌>>=◌, Error}
use dmpf.Ports.Context.{Context}
use dmpf.Ports.Objects.{Retention, Declaration, PutRequest, ObjectRef, LegalHold}
use dmpf.Memory.ObjectKeys.{address_eq, Bucket}
use dmpf.Memory.Objects.{purge, put, retain, set_legal_hold}

-- One operation of one of the stores, at an instant of the bucket's clock.
pub data Request : Type 0 where
  puts : PutRequest → Request
  retains : ObjectRef → Retention → Request
  holds : ObjectRef → LegalHold → Request
  purges : ObjectRef → Request

pub record Operation : Type 0 where
  pub declaration : Declaration
  pub context : Context
  pub locked : Option Error
  pub now : ℤ
  pub request : Request

pub >>=_inv :
    {A B : Type 0} (m : Result A) (f : A → Result B) (b : B)
    → (m >>= f) ≡ ok b
    → (a : A) × (m ≡ ok a) × (f a ≡ ok b)
>>=_inv (ok a) f b made = (a, refl, made)
>>=_inv (err e) f b made = absurd (ground (arith, made))
>>=_inv panic f b made = absurd (ground (arith, made))

-- The bucket after an operation, and after a sequence of them.
module _ (digest : List ℕ → String) where
  abbrev pub answer_request : Operation → Request → Bucket → Bucket
  answer_request op (puts req) b = (put digest op.declaration op.context op.locked op.now req b).0
  answer_request op (retains ref to) b =
      (retain op.declaration op.context op.locked op.now ref to b).0
  answer_request op (holds ref hold) b =
      (set_legal_hold op.declaration op.context op.locked op.now ref hold b).0
  answer_request op (purges ref) b = (purge op.declaration op.context op.locked op.now ref b).0

  unfoldable pub run_operations : List Operation → Bucket → Bucket
  run_operations [] b = b
  run_operations (op ∷ ops) b = run_operations ops (answer_request op op.request b)
