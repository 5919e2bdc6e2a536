-- ===== src/Journal.antt =====
-- scenario/journal.py: the journal of replay attempts.
pub mod Secrets
pub mod Json
pub mod Record
pub mod Validate
pub mod Postcondition
pub mod Check
pub mod FileName
pub mod Directory
pub mod Store
pub mod Redaction
