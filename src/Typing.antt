-- ===== src/Typing.antt =====
-- The types of operators: the arms of `infer_expr_type` in src/checker.rs that give an operator's type
-- from its operands' types.
pub mod Kinds
pub mod Operators
pub mod Rules
pub mod Accepts
pub mod Runs
pub mod Sound
pub mod Tests
