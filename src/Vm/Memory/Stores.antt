-- ===== src/Vm/Memory/Stores.antt =====
-- When a store of src/vm.rs succeeds.
use aipl.Ast.Op
use aipl.Vm.Value.{Value, int, int64}
use aipl.Vm.Memory.{Memory}
use aipl.Vm.Memory.Protected.{Store, store64}

-- The values that a store takes.
abbrev pub Takes : Store → Value → Type 0
Takes store64 (int64 _) = Unit
Takes store64 _ = ⊥
Takes _ (int _) = Unit
Takes _ _ = ⊥
