-- ===== src/Driver.antt =====
-- src/driver: what the server asks of a protocol, and who may do what through it.
pub mod Arbiter
pub mod Catalogue
pub mod Commands
pub mod Report
pub mod Seam
pub mod Shapes
