-- ===== src/Examples.antt =====
-- The theorems at concrete inputs, and runs of the code on them.
pub mod Queries
pub mod Players
pub mod Views
pub mod Grid
pub mod Playback
pub mod Records
