-- ===== src/Theta.antt =====
-- The theta sketches of theta/include: the hash table that the sketches and the set operations share.
pub mod Stride
pub mod Table
pub mod Probing
pub mod Entries
pub mod Rehash
pub mod Select
pub mod Consolidate
pub mod Rebuild
pub mod Insert
pub mod Fresh
pub mod Tests
pub mod Sketch
pub mod Reset
pub mod Union
pub mod Intersection
pub mod Difference
