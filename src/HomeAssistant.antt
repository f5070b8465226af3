-- ===== src/HomeAssistant.antt =====
-- src/homeassistant: what the bridge publishes to a broker, and the commands it takes from there.
pub mod Command
pub mod Entity
pub mod Link
pub mod Publisher
pub mod State
pub mod Topics
pub mod Views
