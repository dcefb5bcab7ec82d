-- ===== src/Bookings.antt =====
-- apps/backend/bookings/domain: the Booking aggregate, with the decisions Reserve and Cancel, and the
-- Resource aggregate, with the decision Register.
pub mod Booking
pub mod Resource
