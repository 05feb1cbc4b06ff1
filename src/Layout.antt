-- ===== src/Layout.antt =====
-- Where values lie: `Structs`, slots and memory layouts of src/checker.rs.
pub mod Sums
pub mod Types
pub mod Extents
pub mod Slots
pub mod Offsets
pub mod Aligned
pub mod Fields
pub mod Tests
