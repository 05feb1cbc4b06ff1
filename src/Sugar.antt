-- ===== src/Sugar.antt =====
-- The forms written for the reader, and what they become: src/sugar.rs.
pub mod Shape
pub mod Rewrite
pub mod Safe
pub mod Total
mod Tests
