-- ===== src/Fi.antt =====
-- The frequent items sketch, fi/include.
pub mod Map
pub mod Purge
pub mod Iterator
pub mod Sketch
mod Tests
