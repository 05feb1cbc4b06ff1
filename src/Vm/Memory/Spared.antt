-- ===== src/Vm/Memory/Spared.antt =====
-- atomic.add of src/vm.rs, whose address is aligned, and the bytes that only the runtime writes.
use aipl.Base.{ℕ, ◌%◌, ◌≤◌, ◌<◌, ◌≡◌, refl, ◌⊎◌, not, ok, fail_if, arith}
use aipl.Base.Outcome.{Holds, Holds-step, Holds->>=}
use aipl.Ast.Op
use aipl.Ast.Op.{OpCode}
use aipl.Vm.Value.{Value}
use aipl.Vm.Memory.{Memory, panic, in_memory, check_write_address, check_atomic_alignment}
use aipl.Vm.Memory.Ops.{Operand, int_bits}
use aipl.Vm.Memory.Atomic.{atomic_address, set_word, checked_address, atomic_add}
use aipl.Vm.Memory.Bytes.{write_le-outside}
use aipl.Vm.Memory.Protected.{Protected, check_write_address-ok}

-- No protected byte differs, and the size is the same.
abbrev pub Spares : ℕ → Memory → Memory → Type 0
Spares heap_start m m' =
    ((q : ℕ) → Protected heap_start q → m'.bytes q ≡ m.bytes q) × (m'.size ≡ m.size)

-- An address of four bytes that a store may write.
abbrev IsWord : ℕ → ℕ → Type 0
IsWord heap_start at = (4 ≤ at) × ((at < 64) ⊎ (heap_start ≤ at)) × (at % 4 ≡ 0)

checked_address-IsWord :
    (heap_start : ℕ) (op : OpCode) (v : Value)
    → 1024 ≤ heap_start
    → Holds (IsWord heap_start) (checked_address heap_start op v)
unfolding checked_address check_atomic_alignment
checked_address-IsWord heap_start op v start = Holds-step _ (atomic_address op v) _ (λ at _.
    Holds-step _ (check_write_address op at heap_start) _ (λ _ checked.
      Holds-step _ (check_atomic_alignment op at) _ (λ _ aligned.
        let (low, apart) = check_write_address-ok op at heap_start start checked in
        (low, apart, ground arith))))

set_word-Spares :
    (heap_start at x : ℕ) (m : Memory)
    → IsWord heap_start at
    → Spares heap_start m (set_word at x m)
set_word-Spares heap_start at x m (low, apart, aligned) =
    (λ q guarded. write_le-outside 4 at x m.bytes q (ground arith), refl)

-- Whatever the operands do, an addition spares the protected bytes of the memory that they leave.
abbrev pub AfterOperand : ℕ → Memory → Operand → Value × Memory → Type 0
AfterOperand heap_start m operand after =
    (new : Value) × (left : Memory) × (operand m ≡ ok (new, left)) × Spares heap_start left after.1

-- Where the heap starts at 1024 or later, atomic.add changes no byte of the heap cursor, of the reserved
-- block or of the string literals in the memory that its operand leaves, nor the size.
pub atomic_add-Spares :
    (heap_start : ℕ) (m : Memory) (v : Value) (operand : Operand)
    → 1024 ≤ heap_start
    → Holds (AfterOperand heap_start m operand) (atomic_add heap_start m v operand)
unfolding atomic_add
atomic_add-Spares heap_start m v operand start =
    let Q = AfterOperand heap_start m operand in
    Holds->>= (IsWord heap_start) Q (checked_address heap_start Op.atomic_add v) _
      (checked_address-IsWord heap_start _ v start)
      (λ at word. Holds-step Q (operand m) _ (λ (new, left) evaluated.
        Holds-step Q (int_bits Op.atomic_add new) _ (λ x _.
          Holds-step Q (fail_if (not (in_memory left at 4)) panic) _
            (λ _ _. (new, left, evaluated, set_word-Spares heap_start at _ left word)))))
