-- ===== src/Addrmap.antt =====
-- The address mapper, internal/addrmap.
pub mod Entry
pub mod Pool
pub mod Build
pub mod Table
mod Tests
mod PoolTests
