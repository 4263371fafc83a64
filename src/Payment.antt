-- ===== src/Payment.antt =====
-- apps/services/payment-service: what is charged, refunded and withdrawn.
pub mod Rows
pub mod Policy
pub mod Table
pub mod Service
pub mod Workers
pub mod Funds
pub mod Settled
pub mod Life
pub mod Mirror
mod Tests
