-- ===== src/Transport.antt =====
-- libs/backend/go/transport: what stands in front of a route.
pub mod Admission
