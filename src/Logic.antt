-- ===== src/Logic.antt =====
-- The migration itself: include/logic and src/logic.
pub mod Applier
pub mod Inspector
pub mod Migrator
pub mod Run
pub mod Checkpoint
pub mod Streamer
pub mod Ending
