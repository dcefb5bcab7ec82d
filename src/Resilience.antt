-- ===== src/Resilience.antt =====
-- libs/backend/go/observability/resilience and retry: the decorators around a call of a dependency.
pub mod Breaker
pub mod Bulkhead
