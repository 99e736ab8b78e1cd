-- ===== src/System.antt =====
-- The services together.
pub mod Sound
pub mod Sales
pub mod Money
pub mod Bank
pub mod Ticks
pub mod Profiles
pub mod Metered
pub mod Accepts
pub mod Run
