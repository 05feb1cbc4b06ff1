-- ===== src/Vm/Memory/Protected.antt =====
-- What the stores of src/vm.rs write, and where. Of the bytes of a store, the check of its address looks
-- at the first.
use aipl.Base.{
  ℕ, ◌%◌, ℤ, pos, negsuc, ap, sym, ◌∙◌, subst, ◌+◌, ◌≤◌, ◌<◌, ◌≡◌, refl, ◌⊎◌, leb, not, ok, fail_if,
  arith,
}
use aipl.Base.Outcome.{Holds, Holds-step, Holds->>=}
use aipl.Ast.Expr.{u16}
use aipl.Ast.Op
use aipl.Ast.Op.{OpCode}
use aipl.Vm.Value.{Value, int, int64}
use aipl.Word.{to_bits}
use aipl.Vm.Memory.{
  read_le, Memory, MemError, store_out_of_bounds, in_memory, write_le, check_write_address,
}
use aipl.Vm.Memory.Alloc.{Host}
use aipl.Vm.Memory.Cells.{store_val_at, store_word, bits_narrow}
use aipl.Vm.Memory.Ops.{
  Operand, Effect, store_address, int_bits, int64_bits, mem_store8, mem_store16, mem_store32,
  mem_store64,
}
use aipl.Word.Range.{w32, w64, to_bits-lt}
use aipl.Vm.Memory.RoundTrip.{low_8, low_16}
use aipl.Vm.Memory.Bytes.{read_le-write_le, write_le-outside}

-- The bytes that only the runtime writes.
abbrev pub Protected : ℕ → ℕ → Type 0
Protected heap_start q = (q < 4) ⊎ ((64 ≤ q) × (q < heap_start))

pub check_write_address-ok :
    (op : OpCode) (at heap_start : ℕ)
    → 1024 ≤ heap_start
    → check_write_address op at heap_start ≡ ok tt
    → (4 ≤ at) × ((at < 64) ⊎ (heap_start ≤ at))
unfolding check_write_address
check_write_address-ok op at heap_start h e = ground arith

pub data Store : Type 0 where
  store8 store16 store32 store64 : Store

abbrev pub width : Store → ℕ
width store8 = 1
width store16 = 2
width store32 = 4
width store64 = 8

abbrev pub run_store : Store → ℕ → Host → Memory → Value → Operand → Effect
run_store store8 heap_start host = mem_store8 heap_start
run_store store16 heap_start host = mem_store16 heap_start host
run_store store32 heap_start host = mem_store32 heap_start
run_store store64 heap_start host = mem_store64 heap_start

-- The word that a store writes of its value: the low bytes of an i32, or an i64.
abbrev pub Stored : Store → Value → ℕ → Type 0
Stored store8 (int i) x = x ≡ to_bits 32 i % 256
Stored store16 (int i) x = x ≡ to_bits 32 i % 65536
Stored store32 (int i) x = x ≡ to_bits 32 i
Stored store64 (int64 i) x = x ≡ to_bits 64 i
Stored _ _ x = ⊥

-- Its value was written at its address, which the check allows, and nothing else changed.
abbrev pub Wrote : Store → ℕ → Value → Value → Memory → Memory → Type 0
Wrote s heap_start v new m m' =
    (at : ℕ) × (v ≡ int (pos at))
    × (4 ≤ at)
    × ((at < 64) ⊎ (heap_start ≤ at))
    × (at + width s ≤ m.size)
    × Stored s new (read_le (width s) m'.bytes at)
    × ((q : ℕ) → (q < at) ⊎ (at + width s ≤ q) → m'.bytes q ≡ m.bytes q)
    × (m'.size ≡ m.size)

-- What a store that succeeds has done: it has written over the memory that its operand left.
abbrev pub StoreWrote : Store → ℕ → Value → Memory → Operand → Value × Memory → Type 0
StoreWrote s heap_start v m operand after =
    (new : Value) × (left : Memory) × (operand m ≡ ok (new, left))
    × Wrote s heap_start v new left after.1

store_address-ok :
    (op : OpCode) (v : Value) {at : ℕ} → store_address op v ≡ ok at → v ≡ int (pos at)
store_address-ok op (int (pos at)) e = cc
store_address-ok op (int (negsuc n)) e = cc
store_address-ok op _ e = cc

int_bits-ok :
    (op : OpCode) (v : Value) {x : ℕ}
    → int_bits op v ≡ ok x
    → (i : ℤ) × (v ≡ int i) × (x ≡ to_bits 32 i)
int_bits-ok op (int i) e = (i, refl, cc)
int_bits-ok op _ e = cc

int64_bits-ok :
    (op : OpCode) (v : Value) {x : ℕ}
    → int64_bits op v ≡ ok x
    → (i : ℤ) × (v ≡ int64 i) × (x ≡ to_bits 64 i)
int64_bits-ok op (int64 i) e = (i, refl, cc)
int64_bits-ok op _ e = cc

bits_narrow-ok :
    (v : Value) {x : ℕ} → bits_narrow u16 v ≡ ok x → (i : ℤ) × (v ≡ int i) × (x ≡ to_bits 32 i)
bits_narrow-ok (int i) e = (i, refl, cc)
bits_narrow-ok _ e = cc

inside-le :
    (e : MemError) (m : Memory) (at w : ℕ)
    → fail_if (not (in_memory m at w)) e ≡ ok tt
    → at + w ≤ m.size
unfolding in_memory
inside-le e m at w h = ground arith

below-le :
    (e : MemError) (m : Memory) (at : ℕ) → fail_if (leb m.size at) e ≡ ok tt → at + 1 ≤ m.size
below-le e m at h = ground arith

-- What each store's word is once it is written.
stored8 :
    (new : Value) (at x : ℕ) (b : ℕ → ℕ)
    → int_bits Op.mem_store8 new ≡ ok x
    → Stored store8 new (read_le 1 (write_le 1 at x b) at)
stored8 new at x b e =
    let (i, value, bits) = int_bits-ok _ new e in
    subst (λ v. Stored store8 v (read_le 1 (write_le 1 at x b) at)) (sym value)
      (low_8 at x b ∙ ap (λ n. n % 256) bits)

stored16 :
    (new : Value) (at x : ℕ) (b : ℕ → ℕ)
    → bits_narrow u16 new ≡ ok x
    → Stored store16 new (read_le 2 (write_le 2 at x b) at)
stored16 new at x b e =
    let (i, value, bits) = bits_narrow-ok new e in
    subst (λ v. Stored store16 v (read_le 2 (write_le 2 at x b) at)) (sym value)
      (low_16 at x b ∙ ap (λ n. n % 65536) bits)

stored32 :
    (new : Value) (at x : ℕ) (b : ℕ → ℕ)
    → int_bits Op.mem_store32 new ≡ ok x
    → Stored store32 new (read_le 4 (write_le 4 at x b) at)
stored32 new at x b e =
    let (i, value, bits) = int_bits-ok _ new e in
    subst (λ v. Stored store32 v (read_le 4 (write_le 4 at x b) at)) (sym value)
      (read_le-write_le 4 at x b (omega (arith, bits, to_bits-lt w32 i)) ∙ bits)

stored64 :
    (new : Value) (at x : ℕ) (b : ℕ → ℕ)
    → int64_bits Op.mem_store64 new ≡ ok x
    → Stored store64 new (read_le 8 (write_le 8 at x b) at)
stored64 new at x b e =
    let (i, value, bits) = int64_bits-ok _ new e in
    subst (λ v. Stored store64 v (read_le 8 (write_le 8 at x b) at)) (sym value)
      (read_le-write_le 8 at x b (omega (arith, bits, to_bits-lt w64 i)) ∙ bits)

-- Where the heap starts at 1024 or later, a store that succeeds has written the word of its value at the
-- address that its first operand gives, whose first byte is from 4 up and below 64 or in the heap, with
-- the whole word inside the memory, and has changed nothing else of what the evaluation of its value has
-- left.
pub run_store-Wrote :
    (s : Store) (heap_start : ℕ) (host : Host) (m : Memory) (v : Value) (operand : Operand)
    → 1024 ≤ heap_start
    → Holds (StoreWrote s heap_start v m operand) (run_store s heap_start host m v operand)
unfolding mem_store8 mem_store16 mem_store32 mem_store64 store_val_at
run_store-Wrote store8 heap_start host m v operand start =
    let Q = StoreWrote store8 heap_start v m operand in
    Holds-step Q (store_address Op.mem_store8 v) _ (λ at address.
      Holds-step Q (check_write_address Op.mem_store8 at heap_start) _ (λ _ checked.
        let (low, apart) = check_write_address-ok Op.mem_store8 at heap_start start checked in
        let given = store_address-ok Op.mem_store8 v address in
        Holds-step Q (operand m) _ (λ (new, left) evaluated.
          Holds-step Q (int_bits Op.mem_store8 new) _ (λ x word.
            Holds-step Q (fail_if (leb left.size at) (store_out_of_bounds at)) _ (λ _ inside. (
              new,
              left,
              evaluated,
              (
                at,
                given,
                low,
                apart,
                below-le _ left at inside,
                stored8 new at x left.bytes word,
                write_le-outside 1 at x left.bytes,
                refl,
              ),
            ))))))
run_store-Wrote store16 heap_start host m v operand start =
    let Q = StoreWrote store16 heap_start v m operand in
    Holds-step Q (store_address Op.mem_store16 v) _ (λ at address.
      Holds-step Q (check_write_address Op.mem_store16 at heap_start) _ (λ _ checked.
        let (low, apart) = check_write_address-ok Op.mem_store16 at heap_start start checked in
        let given = store_address-ok Op.mem_store16 v address in
        Holds-step Q (operand m) _ (λ (new, left) evaluated.
          Holds->>= (Wrote store16 heap_start v new left) Q
            (store_word 2 left at (bits_narrow u16 new)) _
            (Holds-step _ (fail_if (not (in_memory left at 2)) (store_out_of_bounds at)) _
              (λ _ inside. Holds-step _ (bits_narrow u16 new) _ (λ x word. (
                at,
                given,
                low,
                apart,
                inside-le _ left at 2 inside,
                stored16 new at x left.bytes word,
                write_le-outside 2 at x left.bytes,
                refl,
              ))))
            (λ after wrote. (new, left, evaluated, wrote)))))
run_store-Wrote store32 heap_start host m v operand start =
    let Q = StoreWrote store32 heap_start v m operand in
    Holds-step Q (store_address Op.mem_store32 v) _ (λ at address.
      Holds-step Q (check_write_address Op.mem_store32 at heap_start) _ (λ _ checked.
        let (low, apart) = check_write_address-ok Op.mem_store32 at heap_start start checked in
        let given = store_address-ok Op.mem_store32 v address in
        Holds-step Q (operand m) _ (λ (new, left) evaluated.
          Holds-step Q (int_bits Op.mem_store32 new) _ (λ x word.
            Holds-step Q (fail_if (not (in_memory left at 4)) (store_out_of_bounds at)) _
              (λ _ inside. (
                new,
                left,
                evaluated,
                (
                  at,
                  given,
                  low,
                  apart,
                  inside-le _ left at 4 inside,
                  stored32 new at x left.bytes word,
                  write_le-outside 4 at x left.bytes,
                  refl,
                ),
              ))))))
run_store-Wrote store64 heap_start host m v operand start =
    let Q = StoreWrote store64 heap_start v m operand in
    Holds-step Q (store_address Op.mem_store64 v) _ (λ at address.
      Holds-step Q (check_write_address Op.mem_store64 at heap_start) _ (λ _ checked.
        let (low, apart) = check_write_address-ok Op.mem_store64 at heap_start start checked in
        let given = store_address-ok Op.mem_store64 v address in
        Holds-step Q (operand m) _ (λ (new, left) evaluated.
          Holds-step Q (int64_bits Op.mem_store64 new) _ (λ x word.
            Holds-step Q (fail_if (not (in_memory left at 8)) (store_out_of_bounds at)) _
              (λ _ inside. (
                new,
                left,
                evaluated,
                (
                  at,
                  given,
                  low,
                  apart,
                  inside-le _ left at 8 inside,
                  stored64 new at x left.bytes word,
                  write_le-outside 8 at x left.bytes,
                  refl,
                ),
              ))))))
