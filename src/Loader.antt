-- ===== src/Loader.antt =====
-- scenario/loader.py: from the documents of a scenario to its plan.
pub mod Checks
pub mod Resource
pub mod Plan
pub mod Catalog
pub mod Resolve
pub mod Create
pub mod Update
pub mod Actions
pub mod Events
pub mod Assets
pub mod Load
