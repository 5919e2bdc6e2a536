-- ===== src/Replay.antt =====
-- replay: the engine that sends the events of a scenario, and what it stands on.
pub mod Context
pub mod Invocation
pub mod Values
pub mod Append
pub mod Supported
pub mod Create
pub mod Appends
pub mod Delta
pub mod Update
pub mod Sets
pub mod Handlers
pub mod Engine
pub mod Start
