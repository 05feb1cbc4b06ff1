-- ===== src/Vm/Memory/Grown.antt =====
-- The allocator of src/vm.rs: the block that mem.alloc gives, and its error.
use aipl.Base.{
  ℕ, ◌+◌, ◌-◌, ◌*◌, ◌/◌, ◌%◌, ◌^◌, ◌≤◌, ◌<◌, ◌≡◌, refl, sym, subst, ◌∙◌, ◌⊎◌, inl, inr, ltb, leb,
  pos, true, false, ok, arith, Bool-cases,
}
use aipl.Word.{from_bits}
use aipl.Vm.Value.{Value, int}
use aipl.Vm.Memory.{Memory, heap_ptr_addr, page_size, write_le, with_bytes, resize}
use aipl.Vm.Memory.Alloc.{round_up, cursor, grow_to, alloc_bytes, mem_alloc}
use aipl.Vm.Memory.Bytes.{read_le-cong, read_le-write_le, write_le-outside}

-- Memory is whole pages, at least one and at most as many as it may have, itself at most 32768.
abbrev pub IsPaged : Memory → Type 0
IsPaged m =
    (m.size % 65536 ≡ 0) × (65536 ≤ m.size) × (m.size ≤ m.max_pages * 65536) × (m.max_pages ≤ 32768)

-- Bytes at addresses that were in the memory are as they were, but the cursor's.
abbrev pub Extends : Memory → Memory → Type 0
Extends m m' =
    ((q : ℕ) → 4 ≤ q → q < m.size → m'.bytes q ≡ m.bytes q)
    × (m.size ≤ m'.size)
    × IsPaged m'
    × (m'.max_pages ≡ m.max_pages)

resize-bytes : (n : ℕ) (m : Memory) (q : ℕ) → q < m.size → (resize n m).bytes q ≡ m.bytes q
unfolding resize
resize-bytes n m q h = ground arith

-- Growth keeps what was there, and reaches its goal unless memory may not have that many pages.
abbrev Grown : ℕ → Memory → Memory → Type 0
Grown next m g =
    ((q : ℕ) → q < m.size → g.bytes q ≡ m.bytes q)
    × (m.size ≤ g.size)
    × IsPaged g
    × (g.max_pages ≡ m.max_pages)
    × ((next ≤ g.size) ⊎ ((m.max_pages * 65536 < next) × (g.size < next)))

abbrev wanted : ℕ → Memory → ℕ
wanted next m = m.size / page_size + (next - m.size % 2 ^ 32 + 65535) % 2 ^ 32 / 65536

grow_to-cases :
    (next : ℕ) (m : Memory)
    → ((ltb (m.size % 2 ^ 32) next ≡ false) × (grow_to next m ≡ m))
      ⊎ (((ltb (m.size % 2 ^ 32) next ≡ true)
            × (leb (wanted next m) m.max_pages ≡ false)
            × (grow_to next m ≡ m))
          ⊎ ((ltb (m.size % 2 ^ 32) next ≡ true)
              × (leb (wanted next m) m.max_pages ≡ true)
              × (grow_to next m ≡ resize (wanted next m * page_size) m)))
unfolding grow_to
grow_to-cases next m = elim (Bool-cases (ltb (m.size % 2 ^ 32) next)) [
  | inl e ↦ elim (Bool-cases (leb (wanted next m) m.max_pages)) [
    | inl e' ↦ inr (inr (e, e', rw (e, e') refl))
    | inr e' ↦ inr (inl (e, e', rw (e, e') refl))
  ]
  | inr e ↦ inl (e, rw e refl)
]

grow_to-Grown :
    (next : ℕ) (m : Memory) → next ≤ 2 ^ 32 - 65536 → IsPaged m → Grown next m (grow_to next m)
unfolding resize
grow_to-Grown next m small (pages, one, fits, most) = elim (grow_to-cases next m) [
  | inl (e, same) ↦
      subst (Grown next m) (sym same)
        ((λ q h. refl), omega arith, (pages, one, fits, most), refl, inl (ground arith))
  | inr (inl (e, e', same)) ↦
      subst (Grown next m) (sym same) (
        (λ q h. refl),
        omega arith,
        (pages, one, fits, most),
        refl,
        inr (ground arith, ground arith),
      )
  | inr (inr (e, e', same)) ↦ subst (Grown next m) (sym same) (
    resize-bytes (wanted next m * page_size) m,
    ground arith,
    (omega arith, ground arith, ground arith, most),
    refl,
    inl (ground arith),
  )
]

round_up-le : (n : ℕ) → n ≤ 2 ^ 31 → (n ≤ round_up n) × (round_up n ≤ n + 7) × (round_up n % 8 ≡ 0)
unfolding round_up
round_up-le n h = (omega arith, omega arith, omega arith)

abbrev after : ℕ → Memory → Memory
after n m = (alloc_bytes n m).1

-- A block of `n` bytes was taken at the cursor, which stands after it, at a multiple of 8 where it did.
abbrev pub Taken : ℕ → Memory → Value × Memory → Type 0
Taken n m result =
    (result.0 ≡ int (from_bits 32 (cursor m)))
    × (cursor m + n ≤ cursor result.1)
    × (cursor result.1 ≤ cursor m + n + 7)
    × (cursor result.1 ≤ result.1.size)
    × ((cursor result.1 + 8 - cursor m % 8) % 8 ≡ 0)
    × Extends m result.1

alloc_bytes-Extends :
    (n : ℕ) (m : Memory)
    → IsPaged m
    → n ≤ 2 ^ 31
    → cursor m + n ≤ 2 ^ 31
    → Extends m (after n m)
      × (cursor (after n m) ≡ cursor m + round_up n)
      × ((cursor m + round_up n ≤ (after n m).size)
          ⊎ ((m.max_pages * 65536 < cursor m + round_up n)
              × ((after n m).size < cursor m + round_up n)))
unfolding alloc_bytes cursor
alloc_bytes-Extends n m paged short room =
    let next = (cursor m + round_up n) % 2 ^ 32 in
    let written = with_bytes m (write_le 4 heap_ptr_addr next m.bytes) in
    let (low, high, _) = round_up-le n short in
    let exact : next ≡ cursor m + round_up n = omega arith in
    let (kept, larger, paged', same, reached) = grow_to-Grown next written (omega arith) paged in
    let (_, one, _, _) = paged in
    let found =
      read_le-cong 4 (after n m).bytes written.bytes 0 (λ q _ h. kept q (omega arith))
      ∙ read_le-write_le 4 0 next m.bytes (omega arith) in
    (
      ((λ q h k. kept q k ∙ write_le-outside 4 0 next m.bytes q (inr h)), larger, paged', same),
      found ∙ exact,
      elim reached [
        | inl r ↦ inl (omega (arith, r))
        | inr (r, r') ↦ inr (omega (arith, r), omega (arith, r'))
      ],
    )

-- In a memory of whole pages, mem.alloc of `n` bytes gives the block at the cursor, moves the cursor past
-- it, to a multiple of 8 from where it was, and changes no other byte that was in the memory, where the
-- memory may grow to the block's end.
pub mem_alloc-Taken :
    (n : ℕ) (m : Memory)
    → IsPaged m
    → n ≤ 2 ^ 31
    → cursor m + n ≤ 2 ^ 31
    → cursor m + round_up n ≤ m.max_pages * 65536
    → (result : Value × Memory) × (mem_alloc m (int (pos n)) ≡ ok result) × Taken n m result
unfolding mem_alloc cursor alloc_bytes
mem_alloc-Taken n m paged short room fits =
    let (extends, moved, reached) = alloc_bytes-Extends n m paged short room in
    let (low, high, aligned) = round_up-le n short in
    let exact : n % 2 ^ 64 ≡ n = omega arith in
    let inside : cursor (after n m) ≤ (after n m).size = elim reached [
      | inl r ↦ omega (arith, moved, r)
      | inr (r, _) ↦ absurd (omega (arith, r, fits))
    ] in
    let test : ltb (after n m).size (cursor (after n m)) ≡ false = ground arith in
    (
      (int (from_bits 32 (cursor m)), after n m),
      rw (exact, test) refl,
      (
        refl,
        omega (arith, moved, low),
        omega (arith, moved, high),
        inside,
        omega (arith, moved, aligned),
        extends,
      ),
    )
