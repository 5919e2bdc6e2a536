-- ===== src/Tests.antt =====
-- The theorems at concrete inputs, and some runs.
pub mod Data
pub mod Documents
mod Replay
mod Verify
mod Journal
mod Loader
