-- ===== src/View.antt =====
-- apps/services/view-service/src: the read side.
pub mod Page
pub mod Listings
pub mod Wallet
mod Tests
