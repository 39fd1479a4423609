-- ===== src/Server/Examples.antt =====
-- The theorems about the server at concrete inputs.
pub mod World
mod Rooms
pub mod Rounds
