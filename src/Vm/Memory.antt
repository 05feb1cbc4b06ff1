-- ===== src/Vm/Memory.antt =====
-- Linear memory: `SharedMemory` and the accesses to its bytes in src/vm.rs.
--
-- The bytes are a function of the address, of which those below the size are the memory's. An address is
-- a natural number, and a word is kept as its bit pattern.
pub mod Bytes
pub mod Cells
pub mod Ops
pub mod Alloc
pub mod Atomic
pub mod RoundTrip
pub mod Protected
pub mod Stores
pub mod Spared
pub mod Grown
pub mod Locks
pub mod Held
pub mod Tests
use aipl.Base.{
  ℕ, zero, suc, ◌+◌, ◌-◌, ◌*◌, ◌/◌, ◌%◌, ◌^◌, leb, ltb, ◌==◌, ℤ, Bool, true, false, ◌&&◌, String,
  Result, ok, err, List, ◌>>=◌, ◌>>◌, fail_if, if◌then◌else◌,
}
use aipl.Ast.Op.{OpCode}
use aipl.Ast.Expr.{AiplType}
use aipl.Vm.Value.{Value}

pub record Memory : Type 0 where
  pub bytes : ℕ → ℕ
  pub size : ℕ
  pub max_pages : ℕ

-- The messages of the memory's operations.
pub data MemError : Type 0 where
  load_out_of_bounds store_out_of_bounds : ℕ → MemError
  negative_load negative_store : ℤ → MemError
  -- "... requires Int ptr", "... requires Int val"
  needs_operand : OpCode → MemError
  heap_cursor_write reserved_write literal_write : OpCode → (address : ℕ) → MemError
  misaligned : OpCode → (address : ℕ) → MemError
  wrong_value : AiplType → Value → MemError
  unsupported_load unsupported_store : AiplType → MemError
  bad_string_pointer : (address pointer : ℕ) → MemError
  string_past_memory : (pointer len : ℕ) → MemError
  string_needs_memory : (len : ℕ) → MemError
  out_of_memory : (pages : ℕ) → MemError
  null_pointer use_after_free : MemError
  not_a_pointer : Value → MemError
  not_a_lock : (address word : ℕ) → MemError
  not_held : (address word : ℕ) → MemError
  -- a slice out of range, where the process stops
  panic : MemError

abbrev pub page_size : ℕ
page_size = 65536

abbrev pub heap_ptr_addr : ℕ
heap_ptr_addr = 0

-- GEN_UNCHECKED: the generation of a pointer that is not checked.
abbrev pub gen_unchecked : ℕ
gen_unchecked = 4294967295

-- Whether `len` bytes at an address are inside the memory.
unfoldable pub in_memory : Memory → ℕ → ℕ → Bool
in_memory m at len = leb (at + len) m.size

abbrev pub update : ℕ → ℕ → (ℕ → ℕ) → ℕ → ℕ
update p x b q = if q == p then x else b q

-- `from_le_bytes` of `n` bytes.
unfoldable pub read_le : ℕ → (ℕ → ℕ) → ℕ → ℕ
read_le zero b p = 0
read_le (suc n) b p = b p + 256 * read_le n b (p + 1)

-- `copy_from_slice` of the first `n` of `to_le_bytes`.
unfoldable pub write_le : ℕ → ℕ → ℕ → (ℕ → ℕ) → ℕ → ℕ
write_le zero p v b = b
write_le (suc n) p v b = update p (v % 256) (write_le n (p + 1) (v / 256) b)

abbrev pub with_bytes : Memory → (ℕ → ℕ) → Memory
with_bytes m b = record { bytes = b; size = m.size; max_pages = m.max_pages }

-- `bytes.resize(size, 0)`.
unfoldable pub resize : ℕ → Memory → Memory
resize n m = record {
  bytes = λ q. if ltb q m.size then m.bytes q else 0;
  size = n;
  max_pages = m.max_pages;
}

-- No store below the heap but to the cells 4..64.
unfoldable pub check_write_address : OpCode → ℕ → ℕ → Result MemError (Unit {0})
check_write_address op ptr heap_start = do
  fail_if (ltb ptr 4) (heap_cursor_write op ptr)
  fail_if (leb 64 ptr && ltb ptr 1024) (reserved_write op ptr)
  fail_if (leb 1024 ptr && ltb ptr heap_start) (literal_write op ptr)

unfoldable pub check_atomic_alignment : OpCode → ℕ → Result MemError (Unit {0})
check_atomic_alignment op ptr = if ptr % 4 == 0 then ok tt else err (misaligned op ptr)
