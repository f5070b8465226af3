-- ===== src/Growatt.antt =====
-- src/growatt: the vendor's protocol. The frame and what travels in it.
pub mod Commands
pub mod Product
pub mod Identity
pub mod Network
pub mod Header
pub mod MessageType
pub mod Frame
pub mod Registers
pub mod Encode
pub mod Decode
pub mod Catalogue
pub mod Classify
