-- ===== src/Retry.antt =====
-- libs/backend/go/observability/retry: the budget, the backoff and the verdict of a retry.
pub mod Budget
pub mod Backoff
pub mod Evaluate
