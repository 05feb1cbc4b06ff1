-- ===== src/Vm/Memory/Atomic.antt =====
-- The atomic instructions of `eval_op` in src/vm.rs. Each holds the memory's lock while it reads and
-- writes; an attempt of atomic.lock is a function of its own, since others run between two.
use aipl.Base.{
  ℕ, ◌+◌, ◌%◌, ◌^◌, ◌==◌, true, false, not, Option, none, some, Result, ok, err, ◌>>=◌, ◌>>◌,
  fail_if, if◌then◌else◌,
}
use aipl.Ast.Op
use aipl.Ast.Op.{OpCode}
use aipl.Word.{to_bits, from_bits}
use aipl.Vm.Value.{Value, int, void}
use aipl.Vm.Memory.{
  Memory, MemError, load_out_of_bounds, needs_operand, panic, not_a_lock, not_held, in_memory,
  read_le, write_le, with_bytes, check_write_address, check_atomic_alignment,
}
use aipl.Vm.Memory.Ops.{Operand, Effect, int_bits}

-- `i as usize`, of the address.
abbrev pub atomic_address : OpCode → Value → Result MemError ℕ
atomic_address op (int i) = ok (to_bits 64 i)
atomic_address op v = err (needs_operand op)

abbrev pub word_at : Memory → ℕ → ℕ
word_at m at = read_le 4 m.bytes at

abbrev pub set_word : ℕ → ℕ → Memory → Memory
set_word at v m = with_bytes m (write_le 4 at v m.bytes)

module _ (heap_start : ℕ) where
  -- The checks of an address before its word is touched.
  unfoldable pub checked_address : OpCode → Value → Result MemError ℕ
  checked_address op v = do
    at ← atomic_address op v
    check_write_address op at heap_start
    check_atomic_alignment op at
    ok at

  -- The word before is the value.
  unfoldable pub atomic_add : Memory → Value → Operand → Effect
  atomic_add m v operand = do
    at ← checked_address Op.atomic_add v
    (by, m') ← operand m
    amount ← int_bits Op.atomic_add by
    fail_if (not (in_memory m' at 4)) panic
    ok (int (from_bits 32 (word_at m' at)), set_word at ((word_at m' at + amount) % 2 ^ 32) m')

  unfoldable pub atomic_cas : Memory → Value → Operand → Operand → Effect
  atomic_cas m v expected operand = do
    at ← checked_address Op.atomic_cas v
    (old, m') ← expected m
    old_word ← int_bits Op.atomic_cas old
    (new, m'') ← operand m'
    new_word ← int_bits Op.atomic_cas new
    fail_if (not (in_memory m'' at 4)) panic
    if word_at m'' at == old_word
        then ok (Value.bool true, set_word at new_word m'')
        else ok (Value.bool false, m'')

  -- One attempt: `none` where another holds the lock, and the loop goes on.
  unfoldable pub atomic_lock : Memory → Value → Result MemError (Option Memory)
  atomic_lock m v = do
    at ← checked_address Op.atomic_lock v
    fail_if (not (in_memory m at 4)) (load_out_of_bounds at)
    let word = word_at m at in
        if word == 0
        then ok (some (set_word at 1 m))
        else if word == 1
        then ok none
        else err (not_a_lock at word)

  unfoldable pub atomic_unlock : Memory → Value → Effect
  atomic_unlock m v = do
    at ← checked_address Op.atomic_unlock v
    fail_if (not (in_memory m at 4)) (load_out_of_bounds at)
    fail_if (not (word_at m at == 1)) (not_held at (word_at m at))
    ok (void, set_word at 0 m)
