-- ===== src/Bus.antt =====
-- bus/src: how events leave a service and how a projection takes them in.
pub mod Gate
pub mod Await
pub mod Outbox
pub mod Order
pub mod Redelivery
mod Tests
