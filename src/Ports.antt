-- ===== src/Ports.antt =====
-- libs/backend/go/ports: the vocabulary that the use cases and the providers share.
pub mod Results
pub mod Transaction
pub mod Context
pub mod Inbox
pub mod Instrumentation
pub mod IdempotencyKey
pub mod Attempts
pub mod Objects
