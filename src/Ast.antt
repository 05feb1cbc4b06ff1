-- ===== src/Ast.antt =====
-- The syntax tree: src/ast.rs.
pub mod Op
pub mod Expr
pub mod Walk
pub mod Defs
pub mod TypeEq
