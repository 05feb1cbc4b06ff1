-- ===== src/Vm.antt =====
-- The virtual machine of src/vm.rs: its values, and the operators on them.
pub mod Value
pub mod Arith
pub mod Tests
pub mod Memory
