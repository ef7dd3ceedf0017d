-- ===== src/Tests.antt =====
-- The theorems at concrete data.
mod Discovery
mod Desired
mod Config
mod Controller
mod Gpio
mod Handlers
mod Action
mod Service
mod Validation
mod Configured
mod Mqtt
mod Command
mod Startup
mod Files
mod Outputs
mod Expansion
mod Switching
