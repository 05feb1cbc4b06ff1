-- ===== src/Text.antt =====
-- Numbers as decimal text, as Rust's formatting writes them.
pub mod Decimal
pub mod Strings
