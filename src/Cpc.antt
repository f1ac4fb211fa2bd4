-- ===== src/Cpc.antt =====
-- The compressed probabilistic counting sketch: cpc/include.
pub mod Bits
pub mod Bytes
pub mod Codes
pub mod Columns
pub mod Pairs
pub mod Reading
pub mod Stream
pub mod Surprising
pub mod Tables
mod Tests
pub mod Window
pub mod Writing
