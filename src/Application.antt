-- ===== src/Application.antt =====
-- libs/backend/go/application: the application services over the ports.
pub mod NextStep
pub mod Decide
pub mod Varint
pub mod OutcomeCodec
pub mod Fingerprint
pub mod Idempotent
pub mod Authorize
pub mod Execute
pub mod Disposition
pub mod Profile
pub mod Dispatch
pub mod Resolve
pub mod Sweep
