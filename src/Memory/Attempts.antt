-- ===== src/Memory/Attempts.antt =====
-- libs/backend/go/memory/attempt_ledger.go: the attempts of an external command.
pub mod Row
pub mod Ledger
pub mod Stale
