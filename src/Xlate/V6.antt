-- ===== src/Xlate/V6.antt =====
-- internal/xlate/xlate6.go: packets received from the IPv6 side.
pub mod Icmp
pub mod Generated
pub mod Header
pub mod Payload
pub mod Checksums
pub mod Echo
pub mod Data
pub mod Errors
pub mod Handle
pub mod ErrorPackets
pub mod DataPackets
