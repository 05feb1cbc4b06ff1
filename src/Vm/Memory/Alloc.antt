-- ===== src/Vm/Memory/Alloc.antt =====
-- The allocator of src/vm.rs, whose cursor is in the memory, and the strings that are copied onto the
-- heap.
use aipl.Base.{
  ℕ, ◌+◌, ◌-◌, ◌*◌, ◌/◌, ◌%◌, ◌^◌, leb, ltb, ◌==◌, ℤ, pos, negsuc, String, Result, ok, err, List,
  [], ◌∷◌, none, some, if◌then◌else◌, length,
}
use aipl.Base.Dict.{Dict, lookup}
use aipl.Ast.Op
use aipl.Word.{to_bits, from_bits}
use aipl.Vm.Value.{Value, int}
use aipl.Vm.Memory.{
  Memory, MemError, string_needs_memory, out_of_memory, needs_operand, heap_ptr_addr, page_size,
  read_le, write_le, with_bytes, resize,
}

-- What the accesses use besides the memory: `f64 as f32` on bit patterns, `String::from_utf8_lossy`,
-- `as_bytes`, and the addresses of the program's string literals.
pub record Host : Type 0 where
  pub demote : ℕ → ℕ
  pub from_utf8_lossy : List ℕ → String
  pub as_bytes : String → List ℕ
  pub strings : Dict ℕ

-- `(size as i32).wrapping_add(7) & -8`, as a bit pattern.
unfoldable pub round_up : ℕ → ℕ
round_up n = (n % 2 ^ 32 + 7) % 2 ^ 32 / 8 * 8

unfoldable pub cursor : Memory → ℕ
cursor m = read_le 4 m.bytes heap_ptr_addr

-- Memory grows to hold what ends at `next`, if it may have that many pages.
unfoldable pub grow_to : ℕ → Memory → Memory
grow_to next m =
    let have = m.size % 2 ^ 32 in
    let pages = (next - have + 65535) % 2 ^ 32 / 65536 in
    let wanted = m.size / page_size + pages in
    if ltb have next
    then (if leb wanted m.max_pages then resize (wanted * page_size) m else m)
    else m

-- The block's address, as a bit pattern, and the memory.
unfoldable pub alloc_bytes : ℕ → Memory → ℕ × Memory
alloc_bytes n m =
    let next = (cursor m + round_up n) % 2 ^ 32 in
    (cursor m, grow_to next (with_bytes m (write_le 4 heap_ptr_addr next m.bytes)))

abbrev as_usize : ℤ → ℕ
as_usize i = to_bits 64 i

-- mem.alloc.
unfoldable pub mem_alloc : Memory → Value → Result MemError (Value × Memory)
mem_alloc m (int i) =
    let (at, m') = alloc_bytes (as_usize i) m in
    if ltb m'.size (cursor m')
    then err (out_of_memory m'.max_pages)
    else ok (int (from_bits 32 at), m')
mem_alloc m v = err (needs_operand Op.mem_alloc)

-- mem.grow: -1 where memory may not have that many pages.
unfoldable pub mem_grow : Memory → Value → Result MemError (Value × Memory)
mem_grow m (int i) =
    let old = m.size / page_size in
    elim (from_bits 32 (to_bits 32 i)) [
      | negsuc _ ↦ ok (int (negsuc 0), m)
      | pos pages ↦
          if ltb m.max_pages (old + pages)
          then ok (int (negsuc 0), m)
          else ok (int (pos old), resize ((old + pages) * page_size) m)
    ]
mem_grow m v = err (needs_operand Op.mem_grow)

-- The bytes written one after another.
unfoldable pub write_bytes : ℕ → List ℕ → (ℕ → ℕ) → ℕ → ℕ
write_bytes p [] b = b
write_bytes p (x ∷ xs) b = λ q. if q == p then x else write_bytes (p + 1) xs b q

-- A literal's address, or a copy of the text on the heap, its length in the 4 bytes before it.
unfoldable pub materialize_str : Host → Memory → String → Result MemError (ℕ × Memory)
materialize_str host m s = elim (lookup s host.strings) [
  | some at ↦ ok (at, m)
  | none ↦
      let text = host.as_bytes s in
      let (base, m') = alloc_bytes (4 + length text) m in
      if ltb m'.size (base + 4 + length text)
      then err (string_needs_memory (length text))
      else ok (
        base + 4,
        with_bytes m' (write_bytes (base + 4) text (write_le 4 base (length text) m'.bytes)),
      )
]
