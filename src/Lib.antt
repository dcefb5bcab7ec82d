-- ===== src/Lib.antt =====
-- The core of dmpf: the domain kernel and three aggregates over it, the in-memory realization of the
-- ports, the steps of a use case, and the rules that govern retries, breakers and acknowledgements.
--
-- How the parts interact. A use case (libs/backend/go/application) runs inside a transaction: it loads
-- an aggregate through the ports (libs/backend/go/ports), lets the domain decide
-- (apps/backend/*/domain over libs/backend/go/domain), saves the snapshot at the version it loaded and
-- enqueues the events of the decision. The in-memory store (libs/backend/go/memory) realizes the ports:
-- tables scoped by the tenant of the execution context, a deduplicating inbox, an outbox and the ledger
-- of external attempts, all committed together or not at all. Calls that leave the process go through
-- a retry evaluator with a shared budget and a breaker (libs/backend/go/observability), and the broker's
-- records are committed through a cursor (libs/backend/go/kafka). In front of a route stands an
-- admission controller (libs/backend/go/transport).
--
-- Prelude: tests, lists, signed integers, words of 64 bits, association lists, decimal text, and the
--   interface FloatOps, which stands for float64.
-- Domain: libs/backend/go/domain (Accepted, Rejection, DecideOver). A Go pair of an acceptance and a
--   rejection pointer is a Decision.
-- Orders, Reservations, Bookings: apps/backend/{orders,reservations,bookings}/domain. One function per
--   decision (add_item is Order.AddItem); a pointer receiver becomes the aggregate that is returned.
--   `step` and `run` feed commands in the order in which they arrive.
-- Ports: libs/backend/go/ports. Errors are values of one type, up to what errors.Is and errors.As see;
--   a panic is a result of its own. Transaction is the interface that a use case is given.
-- Memory.Rows, Memory.Store: libs/backend/go/memory/store.go and tx.go. save_as is Table.saveAs, within is
--   unitOfWork.Within, whose two mutexes make transactions follow one another.
-- Memory.Inbox: libs/backend/go/memory/inbox.go. Memory.Attempts: libs/backend/go/memory/attempt_ledger.go,
--   the rows of one key in Row, the ledger and the calls of any tenants (Ledger.Calls) in
--   Ledger, and the pages of a sweep in Stale.
-- Memory.Objects, Memory.ObjectKeys: libs/backend/go/memory/objectstore.go, over the vocabulary of
--   libs/backend/go/ports/objectstore.go (Ports.Objects). A bucket is shared by stores of any declarations and
--   tenants, so Requests runs any sequence of their calls; the hash of a body is a parameter.
-- Memory.Store.Refinement: the specification of a table without unique constraints, a map of versioned cells.
-- Application.Decide: libs/backend/go/application/{decide,outcome,enqueue,identity,message_context}.go.
--   Application.NextStep: next_step.go.
-- Application.Varint, OutcomeCodec, Fingerprint, Idempotent: varint.go, outcome_codec.go, fingerprint.go and
--   idempotent.go beside them. Texts stands for Go's conversion between a string and its bytes, with the law
--   that a string is read back from its bytes. run_idempotent is RunIdempotent over any inbox, with the mark
--   that it leaves on the carrier; Memory.Store.Receptions is the inbox of a transaction of the store, and Memory.Inbox.Held relates an inbox
--   to a later one that holds its entries.
-- Application.Execute, Authorize: execute.go, query.go and authorize.go. What the instrumentation is told is
--   the list of its reports. Orders.Service and Orders.Codecs: apps/backend/orders/application, the
--   operations as commands of the executor.
-- Application.Dispatch, Resolve, Sweep: dispatch.go, resolve.go, abandon.go and sweep.go beside them, over
--   records of ports: a transaction's ledger, its inbox, the partner, and what the use case applies.
--   Dispatch.Stored is a dispatch over the in-memory store, where AttemptStore makes each call of the ledger a
--   transaction of its own (Memory.Store.AttemptCalls). A dispatch reads the clock at fixed points, so the
--   readings are a record. Application.Profile: external_profile.go and outbound_key.go.
--   Application.Disposition: disposition.go.
-- Retry: libs/backend/go/observability/retry. A compare-and-swap is one step, and Arm is the two steps
--   that it is; Budget.Shared runs every interleaving of them.
-- Resilience.Breaker: libs/backend/go/observability/resilience/breaker.go. Every method holds the lock, so
--   it is one step; Breaker.Calls runs every interleaving of calls that enter and return.
-- Resilience.Bulkhead: bulkhead.go beside it. A channel is its size and the number of its entries, and every
--   operation on one is a step; Bulkhead.Pool runs every interleaving of them.
-- Kafka.Cursor: libs/backend/go/kafka/offsets.go. Kafka.Cursor.Prefix runs any sequence of deliveries,
--   acknowledgements and calls of NextContiguous, whose answer is what the session has committed.
-- Transport.Admission: libs/backend/go/transport/admission/admission.go. Every decision holds one lock, so it
--   is one step; Slots runs any sequence of requests and releases.
-- Examples: concrete inputs.
--
-- Numbers. An int, a duration and an instant are signed integers of any size; where the code's arithmetic
-- could leave int64 (the balance of a budget, the interval of a backoff, the need of a retry, the end of a
-- retention span) the wrap is written out, and so is the wrap of the uint64 versions and generations. float64
-- is a parameter, NaN included: `a >= b` is its one test, and the others are written with it.
--
-- Loops. Every loop is structural recursion, so none needs fuel but three: the rounds of appendUvarint, of
-- which a uint64 takes nine at most (the round trips hold of every uint64); symbolBits, which halves a length
-- and has that length for fuel; and decimal digits, which divide a number and have that number and one for
-- fuel. The doubling of the backoff recurses on the attempt, and a loop that walks a list backwards for its
-- last match recurses to the end first.
--
-- Values. A model value is never mutated, so the clones that the code takes on every crossing are the values
-- themselves. Maps are association lists, of which a write replaces one entry.
--
-- Not modelled: telemetry, logging and metrics, which never feed back; adapters over third-party drivers
-- (postgres, redis, s3, sqs, grpc, http); authentication; the services of reservations and
-- bookings; the relay and the consumers; composition roots and tooling.
pub mod Prelude
pub mod Domain
pub mod Orders
pub mod Ports
pub mod Memory
pub mod Application
pub mod Kafka
pub mod Retry
pub mod Resilience
pub mod Bookings
pub mod Reservations
pub mod Transport
pub mod Examples
