-- ===== src/Vm/Memory/Cells.antt =====
-- `load_val_at` and `store_val_at` of src/vm.rs, at the types of one machine word or less, `deref` and
-- `array_len_at`.
use aipl.Base.{
  ℕ, zero, suc, ◌+◌, ◌-◌, ◌/◌, ◌%◌, ◌^◌, leb, ltb, ◌==◌, ℤ, pos, ◌&&◌, ◌||◌, not, Result, ok, err,
  List, [], ◌∷◌, ◌>>=◌, ◌>>◌, fail_if, if◌then◌else◌,
}
use aipl.Ast.Expr.{
  Narrow, u8, i8, u16, i16, AiplType, i32, i64, f32, f64, bool, str, ptr, array, fn, enum, union,
  narrow,
}
use aipl.Word.{to_bits, from_bits, is_zero}
use aipl.Layout.Extents.{narrow_size}
use aipl.Vm.Value.{Value, int, int64, float, float32}
use aipl.Vm.Memory.Alloc.{Host, materialize_str}
use aipl.Vm.Memory.{
  Memory, MemError, load_out_of_bounds, store_out_of_bounds, wrong_value, unsupported_load,
  unsupported_store, bad_string_pointer, string_past_memory, null_pointer, use_after_free,
  not_a_pointer, panic, in_memory, read_le, write_le, with_bytes, gen_unchecked,
}

-- The bytes from an address, one by one.
unfoldable pub read_bytes : ℕ → (ℕ → ℕ) → ℕ → List ℕ
read_bytes zero b p = []
read_bytes (suc n) b p = b p ∷ read_bytes n b (p + 1)

abbrev pub load_word : (ℕ → Value) → ℕ → Memory → ℕ → Result MemError Value
load_word make w m at =
    if in_memory m at w then ok (make (read_le w m.bytes at)) else err (load_out_of_bounds at)

abbrev pub narrow_value : Narrow → ℕ → ℤ
narrow_value u8 v = pos v
narrow_value i8 v = from_bits 8 v
narrow_value u16 v = pos v
narrow_value i16 v = from_bits 16 v

-- A string: the word is the address of its bytes, and their number is in the 4 bytes before them.
unfoldable pub load_string : Host → Memory → ℕ → Result MemError Value
load_string host m at =
    let p = read_le 4 m.bytes at in
    let len = read_le 4 m.bytes (p - 4) in
    if in_memory m at 4
    then (if ltb p 4 || ltb m.size p
        then err (bad_string_pointer at p)
        else if in_memory m p len
        then ok (Value.str (host.from_utf8_lossy (read_bytes len m.bytes p)))
        else err (string_past_memory p len))
    else err (load_out_of_bounds at)

-- The match of `load_val_at`, which a union or result held by value and a value struct do not come to.
unfoldable pub load_val_at : Host → Memory → ℕ → AiplType → Result MemError Value
load_val_at host m at (narrow n) = load_word (λ v. int (narrow_value n v)) (narrow_size n) m at
load_val_at host m at i32 = load_word (λ v. int (from_bits 32 v)) 4 m at
load_val_at host m at (fn _ _ _) = load_word (λ v. int (from_bits 32 v)) 4 m at
load_val_at host m at (enum _) = load_word (λ v. int (from_bits 32 v)) 4 m at
load_val_at host m at (union _) = load_word (λ v. int (from_bits 32 v)) 4 m at
load_val_at host m at bool = load_word (λ v. Value.bool (not (v == 0))) 4 m at
load_val_at host m at str = load_string host m at
load_val_at host m at i64 = load_word (λ v. int64 (from_bits 64 v)) 8 m at
load_val_at host m at (ptr _) = load_word (λ v. int64 (from_bits 64 v)) 8 m at
load_val_at host m at (array _) = load_word (λ v. int64 (from_bits 64 v)) 8 m at
load_val_at host m at f32 = load_word float32 4 m at
load_val_at host m at f64 = load_word float 8 m at
load_val_at host m at t = err (unsupported_load t)

-- The bit pattern that a value is stored as, and none where it is not of a kind that the type takes.
abbrev bits_32 : AiplType → Value → Result MemError ℕ
bits_32 t (int i) = ok (to_bits 32 i)
bits_32 t (Value.bool b) = ok (if b then 1 else 0)
bits_32 t v = err (wrong_value t v)

abbrev bits_bool : Value → Result MemError ℕ
bits_bool (Value.bool b) = ok (if b then 1 else 0)
bits_bool (int i) = ok (if is_zero i then 0 else 1)
bits_bool v = err (wrong_value bool v)

abbrev bits_64 : AiplType → Value → Result MemError ℕ
bits_64 t (int64 i) = ok (to_bits 64 i)
bits_64 t (int i) = ok (to_bits 64 i)
bits_64 t v = err (wrong_value t v)

abbrev bits_f32 : Host → Value → Result MemError ℕ
bits_f32 host (float32 f) = ok f
bits_f32 host (float f) = ok (host.demote f)
bits_f32 host v = err (wrong_value f32 v)

abbrev bits_f64 : Value → Result MemError ℕ
bits_f64 (float f) = ok f
bits_f64 v = err (wrong_value f64 v)

abbrev pub bits_narrow : Narrow → Value → Result MemError ℕ
bits_narrow n (int i) = ok (to_bits 32 i)
bits_narrow n v = err (wrong_value (narrow n) v)

abbrev pub store_word : ℕ → Memory → ℕ → Result MemError ℕ → Result MemError Memory
store_word w m at word = do
  fail_if (not (in_memory m at w)) (store_out_of_bounds at)
  v ← word
  ok (with_bytes m (write_le w at v m.bytes))

-- Stored strings are copied onto the heap.
unfoldable pub store_string : Host → Memory → ℕ → Value → Result MemError Memory
store_string host m at (Value.str s) = do
  (p, m') ← materialize_str host m s
  store_word 4 m' at (ok (p % 2 ^ 32))
store_string host m at v = store_word 4 m at (bits_32 str v)

-- The match of `store_val_at`, which a union or result held by value and a value struct do not come to.
unfoldable pub store_val_at : Host → Memory → ℕ → AiplType → Value → Result MemError Memory
store_val_at host m at (narrow n) v = store_word (narrow_size n) m at (bits_narrow n v)
store_val_at host m at i32 v = store_word 4 m at (bits_32 i32 v)
store_val_at host m at (fn ps r k) v = store_word 4 m at (bits_32 (fn ps r k) v)
store_val_at host m at (enum n) v = store_word 4 m at (bits_32 (enum n) v)
store_val_at host m at (union n) v = store_word 4 m at (bits_32 (union n) v)
store_val_at host m at str v = store_string host m at v
store_val_at host m at bool v = store_word 4 m at (bits_bool v)
store_val_at host m at i64 v = store_word 8 m at (bits_64 i64 v)
store_val_at host m at (ptr t) v = store_word 8 m at (bits_64 (ptr t) v)
store_val_at host m at (array t) v = store_word 8 m at (bits_64 (array t) v)
store_val_at host m at f32 v = store_word 4 m at (bits_f32 host v)
store_val_at host m at f64 v = store_word 8 m at (bits_f64 v)
store_val_at host m at t v = err (unsupported_store t)

-- The address of a pointer about to be used: not null, and of the generation in the word 8 bytes before
-- the object, unless it is unchecked. Below 8 that word would lie past the end of any memory.
unfoldable pub deref : Memory → Value → Result MemError ℕ
deref m (int64 v) =
    let fat = to_bits 64 v in
    let address = fat % 2 ^ 32 in
    let gen = fat / 2 ^ 32 in
    let word = read_le 4 m.bytes (address - 8) in
    if address == 0
    then err null_pointer
    else if leb 8 address && in_memory m (address - 8) 4
    then (if not (word == gen) && not (gen == gen_unchecked)
        then err use_after_free
        else ok address)
    else err (load_out_of_bounds (if leb 8 address then address - 8 else 2 ^ 64 + address - 8))
deref m v = err (not_a_pointer v)

-- The element count in the 4 bytes before an array.
unfoldable pub array_len_at : Memory → ℕ → Result MemError ℤ
array_len_at m at =
    if ltb m.size at
    then err (load_out_of_bounds at)
    else if ltb at 4
    then err panic
    else ok (from_bits 32 (read_le 4 m.bytes (at - 4)))
