-- ===== src/Verify.antt =====
-- verify/expected.py: the state that a replayed scenario is expected to leave.
pub mod Links
pub mod Reach
