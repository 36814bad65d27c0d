-- ===== src/Publisher.antt =====
-- rflink/publisher.go, by the parts of its state.
pub mod Ring
pub mod Ping
pub mod Dedup
pub mod Pending
pub mod Topics
pub mod Health
pub mod Broker
pub mod Discovery
pub mod Sensors
pub mod Serve
pub mod Actuators
