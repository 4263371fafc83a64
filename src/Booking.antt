-- ===== src/Booking.antt =====
-- apps/services/booking-service/src.
pub mod Availability
pub mod Schedule
pub mod Table
pub mod Service
pub mod Reactor
pub mod Outcome
pub mod NoOverlap
pub mod System
mod Tests
