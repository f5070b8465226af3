-- ===== src/Server.antt =====
-- src/server: the device's session and what guards it.
pub mod Access
pub mod Clock
pub mod Probe
pub mod Session
