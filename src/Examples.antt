-- ===== src/Examples.antt =====
-- The properties at concrete inputs.
pub mod Floats
pub mod Texts
pub mod Commands
pub mod Executing
pub mod Dispatching
pub mod Domains
pub mod Delivery
pub mod Storage
pub mod Objects
pub mod Receiving
pub mod Attempted
pub mod Retrying
pub mod Breaking
pub mod UseCases
pub mod Admitting
