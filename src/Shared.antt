-- ===== src/Shared.antt =====
-- shared/src: the types and rules that every service links.
pub mod Slots
pub mod Versions
pub mod Bookings
pub mod Spots
pub mod Tokens
mod Tests
pub mod Keyed
pub mod EmailTokens
