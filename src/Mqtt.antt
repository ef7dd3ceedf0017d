-- ===== src/Mqtt.antt =====
-- mqtt/client.go: the MQTT client.
pub mod Log
pub mod Transport
pub mod Client
pub mod New
