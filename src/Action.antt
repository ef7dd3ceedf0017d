-- ===== src/Action.antt =====
-- action/executor.go: actions in order, and the output of a command.
pub mod Output
pub mod Sequence
pub mod Environment
pub mod Command
pub mod Control
