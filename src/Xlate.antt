-- ===== src/Xlate.antt =====
-- The packet translator, internal/xlate.
pub mod Checksum
pub mod Events
pub mod Packet
pub mod Translator
pub mod V4
pub mod V6
pub mod Entry
mod Tests
mod MessageTests
mod PacketTests
