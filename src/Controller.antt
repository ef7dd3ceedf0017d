-- ===== src/Controller.antt =====
-- controller/controller.go: commands from MQTT, their queues, and the state of the entities.
pub mod Payload
pub mod Dedupe
pub mod Queue
pub mod Handlers
pub mod Register
pub mod Shutdown
