-- ===== src/Memory.antt =====
-- libs/backend/go/memory: the in-memory realization of the ports, the double against which the use
-- cases are proved.
pub mod Rows
pub mod Inbox
pub mod Attempts
pub mod Store
pub mod ObjectKeys
pub mod Objects
