-- ===== src/Xlate/V4.antt =====
-- internal/xlate/xlate4.go: packets received from the IPv4 side.
pub mod Icmp
pub mod Generated
pub mod Header
pub mod Payload
pub mod Checksums
pub mod Echo
pub mod Errors
pub mod Fragments
pub mod Reassembly
pub mod Train
pub mod Handle
pub mod Bounds
pub mod ErrorPackets
