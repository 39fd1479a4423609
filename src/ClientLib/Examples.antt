-- ===== src/ClientLib/Examples.antt =====
-- The theorems about the client library at concrete inputs.
pub mod Desk
mod Sessions
mod Arrivals
