-- ===== src/Kafka.antt =====
-- libs/backend/go/kafka: the adapter of the broker.
pub mod Cursor
