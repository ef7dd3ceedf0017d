-- ===== src/Discovery.antt =====
-- controller/discovery.go: Home Assistant discovery. The manifest on disk lists the topics that this
-- controller may have published; reconciliation brings broker and manifest to the configured entities.
-- Faults of the operating system and of the broker come from a list in the state, one for each call.
pub mod Topics
pub mod World
pub mod Reconcile
pub mod Desired
pub mod Configured
pub mod Files
