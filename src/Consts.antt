-- ===== src/Consts.antt =====
-- Named constants and enum members: src/consts.rs.
pub mod Fold
pub mod Agree
mod Tests
