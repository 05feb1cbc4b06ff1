-- ===== src/Vm/Memory/RoundTrip.antt =====
-- A load after a store of one type at one address: src/vm.rs.
use aipl.Base.{
  ℕ, ◌+◌, ◌^◌, ◌%◌, ◌≤◌, ◌<◌, ◌==◌, ℤ, pos, negsuc, Bool, true, false, not, ok, ◌≡◌, refl, ap, ◌∙◌,
  ◌⊎◌, arith,
}
use aipl.Ast.Expr.{
  u8, i8, u16, i16, AiplType, i32, i64, f32, f64, bool, ptr, array, fn, enum, union, narrow,
}
use aipl.Word.{to_bits, from_bits, InRange}
use aipl.Word.Range.{w32, w64, to_bits-lt}
use aipl.Vm.Value.{Value, int, int64, float, float32}
use aipl.Vm.Memory.{Memory, in_memory, read_le, write_le, with_bytes}
use aipl.Vm.Memory.Alloc.{Host}
use aipl.Vm.Memory.Bytes.{read_le-write_le, write_le-outside}
use aipl.Vm.Memory.Cells.{load_val_at, store_val_at, narrow_value, load_word, store_word}

-- The values of a type that is stored in one word, and the bytes it takes. A float is a bit pattern.
pub data IsCell : AiplType → Value → ℕ → Type 0 where
  cell_u8 : (n : ℕ) → n < 256 → IsCell (narrow u8) (int (pos n)) 1
  cell_i8 : (v : ℤ) → InRange 8 v → IsCell (narrow i8) (int v) 1
  cell_u16 : (n : ℕ) → n < 65536 → IsCell (narrow u16) (int (pos n)) 2
  cell_i16 : (v : ℤ) → InRange 16 v → IsCell (narrow i16) (int v) 2
  cell_i32 : (v : ℤ) → InRange 32 v → IsCell i32 (int v) 4
  cell_fn : {ps : _} {r : AiplType} {k : Bool} (v : ℤ) → InRange 32 v → IsCell (fn ps r k) (int v) 4
  cell_enum : {n : _} (v : ℤ) → InRange 32 v → IsCell (enum n) (int v) 4
  cell_union : {n : _} (v : ℤ) → InRange 32 v → IsCell (union n) (int v) 4
  cell_bool : (b : Bool) → IsCell bool (Value.bool b) 4
  cell_i64 : (v : ℤ) → InRange 64 v → IsCell i64 (int64 v) 8
  cell_ptr : {t : AiplType} (v : ℤ) → InRange 64 v → IsCell (ptr t) (int64 v) 8
  cell_array : {t : AiplType} (v : ℤ) → InRange 64 v → IsCell (array t) (int64 v) 8
  cell_f32 : (n : ℕ) → n < 2 ^ 32 → IsCell f32 (float32 n) 4
  cell_f64 : (n : ℕ) → n < 2 ^ 64 → IsCell f64 (float n) 8

-- The bits of a signed word of 1, 2, 4 and 8 bytes are the value again.
signed_32 : (v : ℤ) (r : ℕ) → InRange 32 v → r ≡ to_bits 32 v → from_bits 32 r ≡ v
signed_32 (pos n) r h e = ground arith
signed_32 (negsuc n) r h e = ground arith

signed_64 : (v : ℤ) (r : ℕ) → InRange 64 v → r ≡ to_bits 64 v → from_bits 64 r ≡ v
signed_64 (pos n) r h e = ground arith
signed_64 (negsuc n) r h e = ground arith

signed_8 : (v : ℤ) (r : ℕ) → InRange 8 v → r ≡ to_bits 32 v % 256 → from_bits 8 r ≡ v
signed_8 (pos n) r h e = ground arith
signed_8 (negsuc n) r h e = ground arith

signed_16 : (v : ℤ) (r : ℕ) → InRange 16 v → r ≡ to_bits 32 v % 65536 → from_bits 16 r ≡ v
signed_16 (pos n) r h e = ground arith
signed_16 (negsuc n) r h e = ground arith

pub low_8 : (p v : ℕ) (b : ℕ → ℕ) → read_le 1 (write_le 1 p v b) p ≡ v % 256
unfolding read_le write_le
low_8 p v b = ground arith

pub low_16 : (p v : ℕ) (b : ℕ → ℕ) → read_le 2 (write_le 2 p v b) p ≡ v % 65536
unfolding read_le write_le
low_16 p v b = ground arith

in_memory-eq : (m : Memory) (at w : ℕ) → at + w ≤ m.size → in_memory m at w ≡ true
unfolding in_memory
in_memory-eq m at w h = ground arith

abbrev int_32 : ℕ → Value
int_32 r = int (from_bits 32 r)

abbrev int_64 : ℕ → Value
int_64 r = int64 (from_bits 64 r)

module _ (host : Host) (m : Memory) (at : ℕ) where
  -- The store succeeds, changes `w` bytes, and the load gives the value back.
  abbrev pub Kept : AiplType → Value → ℕ → Type 0
  Kept t v w =
      (m' : Memory) × (store_val_at host m at t v ≡ ok m')
      × (load_val_at host m' at t ≡ ok v)
      × ((q : ℕ) → (q < at) ⊎ (at + w ≤ q) → m'.bytes q ≡ m.bytes q)
      × (m'.size ≡ m.size)

  abbrev after : ℕ → ℕ → Memory
  after w x = with_bytes m (write_le w at x m.bytes)

  store_word-eq : (w x : ℕ) → at + w ≤ m.size → store_word w m at (ok x) ≡ ok (after w x)
  store_word-eq w x h = rw (in_memory-eq m at w h) refl

  load_word-eq :
      (make : ℕ → Value) (w x : ℕ) (v : Value)
      → at + w ≤ m.size
      → make (read_le w (write_le w at x m.bytes) at) ≡ v
      → load_word make w (after w x) at ≡ ok v
  load_word-eq make w x v h e = rw (in_memory-eq (after w x) at w h, e) refl

  kept :
      (t : AiplType) (v : Value) (make : ℕ → Value) (w x : ℕ)
      → at + w ≤ m.size
      → make (read_le w (write_le w at x m.bytes) at) ≡ v
      → store_val_at host m at t v ≡ store_word w m at (ok x)
      → load_val_at host (after w x) at t ≡ load_word make w (after w x) at
      → Kept t v w
  kept t v make w x h e stored loaded = (
    after w x,
    stored ∙ store_word-eq w x h,
    loaded ∙ load_word-eq make w x v h e,
    write_le-outside w at x m.bytes,
    refl,
  )

  signed_4 :
      (v : ℤ)
      → InRange 32 v
      → from_bits 32 (read_le 4 (write_le 4 at (to_bits 32 v) m.bytes) at) ≡ v
  signed_4 v h = signed_32 v _ h (read_le-write_le 4 at (to_bits 32 v) m.bytes (to_bits-lt w32 v))

  signed_8_bytes :
      (v : ℤ)
      → InRange 64 v
      → from_bits 64 (read_le 8 (write_le 8 at (to_bits 64 v) m.bytes) at) ≡ v
  signed_8_bytes v h =
      signed_64 v _ h (read_le-write_le 8 at (to_bits 64 v) m.bytes (to_bits-lt w64 v))

-- A value of one word that is stored inside the memory at its type is loaded again, and the store changes
-- none of the other bytes and not the size.
pub store_val_at-Kept :
    (host : Host) (m : Memory) (at : ℕ) (t : AiplType) (v : Value) (w : ℕ)
    → IsCell t v w
    → at + w ≤ m.size
    → Kept host m at t v w
unfolding store_val_at load_val_at
store_val_at-Kept host m at t v w (cell_u8 n small) h =
    kept host m at t v (λ r. int (narrow_value u8 r)) 1 (to_bits 32 (pos n)) h
      (ap (λ r. int (pos r)) (low_8 at (to_bits 32 (pos n)) m.bytes ∙ omega (arith, small))) refl
      refl
store_val_at-Kept host m at t v w (cell_i8 x small) h =
    kept host m at t v (λ r. int (narrow_value i8 r)) 1 (to_bits 32 x) h
      (ap int (signed_8 x _ small (low_8 at (to_bits 32 x) m.bytes))) refl refl
store_val_at-Kept host m at t v w (cell_u16 n small) h =
    kept host m at t v (λ r. int (narrow_value u16 r)) 2 (to_bits 32 (pos n)) h
      (ap (λ r. int (pos r)) (low_16 at (to_bits 32 (pos n)) m.bytes ∙ omega (arith, small))) refl
      refl
store_val_at-Kept host m at t v w (cell_i16 x small) h =
    kept host m at t v (λ r. int (narrow_value i16 r)) 2 (to_bits 32 x) h
      (ap int (signed_16 x _ small (low_16 at (to_bits 32 x) m.bytes))) refl refl
store_val_at-Kept host m at t v w (cell_i32 x small) h =
    kept host m at t v int_32 4 (to_bits 32 x) h (ap int (signed_4 host m at x small)) refl refl
store_val_at-Kept host m at t v w (cell_fn x small) h =
    kept host m at t v int_32 4 (to_bits 32 x) h (ap int (signed_4 host m at x small)) refl refl
store_val_at-Kept host m at t v w (cell_enum x small) h =
    kept host m at t v int_32 4 (to_bits 32 x) h (ap int (signed_4 host m at x small)) refl refl
store_val_at-Kept host m at t v w (cell_union x small) h =
    kept host m at t v int_32 4 (to_bits 32 x) h (ap int (signed_4 host m at x small)) refl refl
store_val_at-Kept host m at t v w (cell_bool true) h =
    kept host m at t v (λ r. Value.bool (not (r == 0))) 4 1 h
      (ap (λ r. Value.bool (not (r == 0))) (read_le-write_le 4 at 1 m.bytes (omega arith))) refl
      refl
store_val_at-Kept host m at t v w (cell_bool false) h =
    kept host m at t v (λ r. Value.bool (not (r == 0))) 4 0 h
      (ap (λ r. Value.bool (not (r == 0))) (read_le-write_le 4 at 0 m.bytes (omega arith))) refl
      refl
store_val_at-Kept host m at t v w (cell_i64 x small) h =
    kept host m at t v int_64 8 (to_bits 64 x) h (ap int64 (signed_8_bytes host m at x small)) refl
      refl
store_val_at-Kept host m at t v w (cell_ptr x small) h =
    kept host m at t v int_64 8 (to_bits 64 x) h (ap int64 (signed_8_bytes host m at x small)) refl
      refl
store_val_at-Kept host m at t v w (cell_array x small) h =
    kept host m at t v int_64 8 (to_bits 64 x) h (ap int64 (signed_8_bytes host m at x small)) refl
      refl
store_val_at-Kept host m at t v w (cell_f32 n small) h =
    kept host m at t v float32 4 n h
      (ap float32 (read_le-write_le 4 at n m.bytes (omega (arith, small)))) refl refl
store_val_at-Kept host m at t v w (cell_f64 n small) h =
    kept host m at t v float 8 n h
      (ap float (read_le-write_le 8 at n m.bytes (omega (arith, small)))) refl refl
