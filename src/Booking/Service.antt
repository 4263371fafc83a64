-- ===== src/Booking/Service.antt =====
-- apps/services/booking-service/src: service/booking_service.rs, service/payment_worker_service.rs,
-- policy/access.rs and sweeper.rs. A transaction runs as a whole on the rows; what a method reads
-- before its transaction is a snapshot of its own, the argument `read`.
pub mod Create
pub mod Settle
pub use Create.{CreateBookingRequest, Clock}
unfoldable pub use Create.{reject, create_booking}
unfoldable pub use Settle.{
  authorize, settle, release, cancel, rate, confirm_paid, sweep_one, sweep_holds, sweep,
}
