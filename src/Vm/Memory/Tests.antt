-- ===== src/Vm/Memory/Tests.antt =====
-- Memory at concrete states.
use aipl.Base.{
  ℕ, ◌+◌, ◌*◌, ◌≤◌, ◌≡◌, refl, ◌⊎◌, inr, ◌==◌, pos, negsuc, true, false, some, [], ok, arith,
  if◌then◌else◌,
}
use aipl.Base.Outcome.{Holds}
use aipl.Ast.Expr.{i64}
use aipl.Vm.Value.{Value, int, int64, void}
use aipl.Vm.Memory.{
  Memory, read_le, write_le, in_memory, check_write_address, check_atomic_alignment,
}
use aipl.Vm.Memory.Alloc.{Host, cursor, round_up, mem_alloc}
use aipl.Vm.Memory.Ops.{Operand, mem_store64}
use aipl.Vm.Memory.Atomic.{atomic_lock, atomic_unlock, atomic_add, checked_address, set_word}
use aipl.Vm.Memory.RoundTrip.{Kept, cell_i64, store_val_at-Kept}
use aipl.Vm.Memory.Protected.{StoreWrote, run_store, store32, run_store-Wrote}
use aipl.Vm.Memory.Spared.{AfterOperand, atomic_add-Spares}
use aipl.Vm.Memory.Locks.{Threads, now, IsLockWord, lock_word, acquire, Reaches, stay, go}
use aipl.Vm.Memory.Held.{Reaches-one_holder, Reaches-goes_on}
use aipl.Vm.Memory.Grown.{IsPaged, Taken, mem_alloc-Taken}

abbrev host : Host
host = record { demote = λ x. x; from_utf8_lossy = λ xs. ""; as_bytes = λ s. []; strings = [] }

-- One page, of two at most, with the heap cursor at 1024.
abbrev first_bytes : ℕ → ℕ
first_bytes q = if q == 1 then 4 else 0

abbrev blank : Memory
blank = record { bytes = first_bytes; size = 65536; max_pages = 2 }

abbrev seven : Operand
seven m = ok (int (pos 7), m)

abbrev wide : Operand
wide m = ok (int64 (negsuc 0), m)

store_val_at-Kept_example : Kept host blank 2000 i64 (int64 (negsuc 4)) 8
store_val_at-Kept_example =
    store_val_at-Kept host blank 2000 i64 (int64 (negsuc 4)) 8 (cell_i64 (negsuc 4) (omega arith))
      (omega arith)

run_store-Wrote_example :
    Holds
      (StoreWrote store32 1024 (int (pos 1024)) blank seven)
      (run_store store32 1024 host blank (int (pos 1024)) seven)
run_store-Wrote_example =
    run_store-Wrote store32 1024 host blank (int (pos 1024)) seven (omega arith)

atomic_add-Spares_example :
    Holds (AfterOperand 1024 blank seven) (atomic_add 1024 blank (int (pos 1024)) seven)
atomic_add-Spares_example = atomic_add-Spares 1024 blank (int (pos 1024)) seven (omega arith)

-- A store that starts below 64 may reach into the reserved block.
straddles : Holds (λ result. (result.1).bytes 64 ≡ 255) (mem_store64 1024 blank (int (pos 60)) wide)
unfolding mem_store64 check_write_address in_memory write_le
straddles = refl

abbrev nobody : Threads
nobody = record { memory = blank; holds = λ t. false }

word_2048-IsLockWord : IsLockWord 1024 2048 blank
word_2048-IsLockWord = (omega arith, inr (omega arith, omega arith), refl, omega arith, omega arith)

abbrev locked : Memory
locked = set_word 2048 1 blank

took : atomic_lock 1024 blank (lock_word 1024 2048) ≡ ok (some locked)
unfolding atomic_lock checked_address check_write_address check_atomic_alignment in_memory read_le
took = refl

abbrev third : Threads
third = record { memory = locked; holds = now (λ t. false) 3 true }

path : Reaches 1024 2048 nobody third
path = go (stay nobody) (acquire nobody 3 locked took)

word_2048-free : read_le 4 blank.bytes 2048 ≡ 0
unfolding read_le
word_2048-free = refl

Reaches-one_holder_example : ◌≡◌ {A = ℕ} 3 3
Reaches-one_holder_example =
    Reaches-one_holder 1024 2048 nobody third 3 3 word_2048-IsLockWord word_2048-free (λ t. refl)
      path refl refl

Reaches-goes_on_example :
    ((m : Memory) × (atomic_lock 1024 locked (lock_word 1024 2048) ≡ ok (some m)))
    ⊎ ((t : ℕ) × (m : Memory) × (m' : Memory) × (now (λ u. false) 3 true t ≡ true)
        × (atomic_unlock 1024 locked (lock_word 1024 2048) ≡ ok (void, m))
        × (atomic_lock 1024 m (lock_word 1024 2048) ≡ ok (some m')))
Reaches-goes_on_example =
    Reaches-goes_on 1024 2048 nobody third word_2048-IsLockWord word_2048-free (λ t. refl) path

blank-IsPaged : IsPaged blank
blank-IsPaged = (refl, omega arith, omega arith, omega arith)

cursor-blank_lem : cursor blank ≡ 1024
unfolding cursor read_le
cursor-blank_lem = refl

small : cursor blank + round_up 100000 ≤ 2 * 65536
unfolding round_up
small = omega (arith, cursor-blank_lem)

mem_alloc-Taken_example :
    (result : Value × Memory) × (mem_alloc blank (int (pos 100000)) ≡ ok result)
    × Taken 100000 blank result
mem_alloc-Taken_example =
    mem_alloc-Taken 100000 blank blank-IsPaged (omega arith) (omega (arith, cursor-blank_lem)) small
