-- ===== src/Kll.antt =====
-- The quantile sketch of kll/include: its helper class.
pub mod Capacity
pub mod Buffer
pub mod Compress
pub mod Sketch
mod Tests
