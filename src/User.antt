-- ===== src/User.antt =====
-- apps/services/user-service/src: accounts and sessions.
pub mod Rows
pub mod Table
pub mod Service
pub mod Profile
pub mod Sessions
pub mod Reset
pub mod Races
pub mod Links
pub mod Passwords
pub mod Edits
pub mod Keeping
pub mod System
mod Tests
