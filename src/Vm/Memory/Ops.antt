-- ===== src/Vm/Memory/Ops.antt =====
-- The loads and stores of `eval_op` in src/vm.rs: each function is one arm of the match, from the value
-- of the address. An operand that is evaluated later is an `Operand`.
use aipl.Base.{ℕ, leb, pos, negsuc, not, Result, ok, err, ◌>>=◌, ◌>>◌, fail_if}
use aipl.Ast.Expr.{Narrow, i8, u16, i16, narrow}
use aipl.Ast.Op
use aipl.Ast.Op.{OpCode}
use aipl.Word.{to_bits, from_bits}
use aipl.Vm.Value.{Value, int, int64, void}
use aipl.Vm.Memory.{
  Memory, MemError, load_out_of_bounds, store_out_of_bounds, negative_load, negative_store,
  needs_operand, in_memory, read_le, write_le, with_bytes, check_write_address,
}
use aipl.Vm.Memory.Alloc.{Host}
use aipl.Vm.Memory.Cells.{load_val_at, store_val_at}

-- The evaluation of an operand, which may change the memory.
abbrev pub Operand : Type 0
Operand = Memory → Result MemError (Value × Memory)

-- What an instruction gives: its value and the memory.
abbrev pub Effect : Type 0
Effect = Result MemError (Value × Memory)

-- The address that a load or a store reads from its operand.
abbrev pub load_address : OpCode → Value → Result MemError ℕ
load_address op (int (pos at)) = ok at
load_address op (int (negsuc n)) = err (negative_load (negsuc n))
load_address op v = err (needs_operand op)

abbrev pub store_address : OpCode → Value → Result MemError ℕ
store_address op (int (pos at)) = ok at
store_address op (int (negsuc n)) = err (negative_store (negsuc n))
store_address op v = err (needs_operand op)

-- `i as i32`, or its low byte, of an `Int` operand; and an `Int64` operand.
abbrev pub int_bits : OpCode → Value → Result MemError ℕ
int_bits op (int i) = ok (to_bits 32 i)
int_bits op v = err (needs_operand op)

abbrev pub int64_bits : OpCode → Value → Result MemError ℕ
int64_bits op (int64 i) = ok (to_bits 64 i)
int64_bits op v = err (needs_operand op)

unfoldable pub mem_load8 : Memory → Value → Result MemError Value
mem_load8 m v = do
  at ← load_address Op.mem_load8 v
  fail_if (leb m.size at) (load_out_of_bounds at)
  ok (int (pos (m.bytes at)))

-- mem.load8_s, mem.load16_u and mem.load16_s share an arm.
abbrev narrow_of : OpCode → Narrow
narrow_of Op.mem_load8_s = i8
narrow_of Op.mem_load16_u = u16
narrow_of _ = i16

unfoldable pub mem_load_narrow : Host → OpCode → Memory → Value → Result MemError Value
mem_load_narrow host op m v = do
  at ← load_address op v
  load_val_at host m at (narrow (narrow_of op))

unfoldable pub mem_load32 : Memory → Value → Result MemError Value
mem_load32 m v = do
  at ← load_address Op.mem_load32 v
  fail_if (not (in_memory m at 4)) (load_out_of_bounds at)
  ok (int (from_bits 32 (read_le 4 m.bytes at)))

unfoldable pub mem_load64 : Memory → Value → Result MemError Value
mem_load64 m v = do
  at ← load_address Op.mem_load64 v
  fail_if (not (in_memory m at 8)) (load_out_of_bounds at)
  ok (int64 (from_bits 64 (read_le 8 m.bytes at)))

-- `heap_start` is where the heap begins, after the string literals.
module _ (heap_start : ℕ) where
  unfoldable pub mem_store8 : Memory → Value → Operand → Effect
  mem_store8 m v operand = do
    at ← store_address Op.mem_store8 v
    check_write_address Op.mem_store8 at heap_start
    (new, m') ← operand m
    byte ← int_bits Op.mem_store8 new
    fail_if (leb m'.size at) (store_out_of_bounds at)
    ok (void, with_bytes m' (write_le 1 at byte m'.bytes))

  unfoldable pub mem_store16 : Host → Memory → Value → Operand → Effect
  mem_store16 host m v operand = do
    at ← store_address Op.mem_store16 v
    check_write_address Op.mem_store16 at heap_start
    (new, m') ← operand m
    stored ← store_val_at host m' at (narrow u16) new
    ok (void, stored)

  unfoldable pub mem_store32 : Memory → Value → Operand → Effect
  mem_store32 m v operand = do
    at ← store_address Op.mem_store32 v
    check_write_address Op.mem_store32 at heap_start
    (new, m') ← operand m
    word ← int_bits Op.mem_store32 new
    fail_if (not (in_memory m' at 4)) (store_out_of_bounds at)
    ok (void, with_bytes m' (write_le 4 at word m'.bytes))

  unfoldable pub mem_store64 : Memory → Value → Operand → Effect
  mem_store64 m v operand = do
    at ← store_address Op.mem_store64 v
    check_write_address Op.mem_store64 at heap_start
    (new, m') ← operand m
    word ← int64_bits Op.mem_store64 new
    fail_if (not (in_memory m' at 8)) (store_out_of_bounds at)
    ok (void, with_bytes m' (write_le 8 at word m'.bytes))
