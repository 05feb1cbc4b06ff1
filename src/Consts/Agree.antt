-- ===== src/Consts/Agree.antt =====
-- The constant folder against the virtual machine.
pub mod Defs
pub mod Arith
pub mod Bits
pub mod Logic
pub mod Names
pub mod Run
