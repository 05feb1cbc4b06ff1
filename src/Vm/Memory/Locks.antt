-- ===== src/Vm/Memory/Locks.antt =====
-- Threads that share a lock word: atomic.lock and atomic.unlock of src/vm.rs, one attempt at a time.
use aipl.Base.{
  ℕ, ◌+◌, ◌%◌, ◌^◌, ◌≤◌, ◌<◌, ◌≡◌, refl, sym, ap, subst, ◌∙◌, ◌⊎◌, ◌==◌, pos, Bool, true, false,
  not, Option, none, some, Result, ok, err, ◌>>=◌, ◌>>◌, fail_if, if◌then◌else◌, arith,
}
use aipl.Base.Tests.{==_iff}
use aipl.Ast.Op
use aipl.Ast.Op.{OpCode}
use aipl.Vm.Value.{Value, int, void}
use aipl.Vm.Memory.{
  Memory, MemError, not_a_lock, not_held, in_memory, check_write_address, check_atomic_alignment,
}
use aipl.Vm.Memory.Ops.{Effect}
use aipl.Vm.Memory.Atomic.{word_at, set_word, checked_address, atomic_lock, atomic_unlock}
use aipl.Vm.Memory.Bytes.{read_le-write_le}

-- The memory, and which threads have taken the lock and not given it back.
pub record Threads : Type 0 where
  pub memory : Memory
  pub holds : ℕ → Bool

abbrev pub now : (ℕ → Bool) → ℕ → Bool → ℕ → Bool
now held t b u = if u == t then b else held u

module _ (heap_start at : ℕ) where
  -- An aligned word of the heap, or of the cells below it, inside the memory.
  abbrev pub IsLockWord : Memory → Type 0
  IsLockWord m =
      (4 ≤ at)
      × ((at < 64) ⊎ ((1024 ≤ at) × (heap_start ≤ at)))
      × (at % 4 ≡ 0)
      × (at < 2 ^ 31)
      × (at + 4 ≤ m.size)

  abbrev pub lock_word : Value
  lock_word = int (pos at)

  -- What a thread does next: it takes the lock, finds it taken, gives back a lock that it has, or leaves
  -- the word alone.
  pub data Step : Threads → Threads → Type 0 where
    acquire :
        (s : Threads) (t : ℕ) (m : Memory)
        → atomic_lock heap_start s.memory lock_word ≡ ok (some m)
        → Step s (record { memory = m; holds = now s.holds t true })
    spin : (s : Threads) → atomic_lock heap_start s.memory lock_word ≡ ok none → Step s s
    release :
        (s : Threads) (t : ℕ) (m : Memory)
        → s.holds t ≡ true
        → atomic_unlock heap_start s.memory lock_word ≡ ok (void, m)
        → Step s (record { memory = m; holds = now s.holds t false })
    other :
        (s : Threads) (m : Memory)
        → ((q : ℕ) → at ≤ q → q < at + 4 → m.bytes q ≡ s.memory.bytes q)
        → s.memory.size ≤ m.size
        → Step s (record { memory = m; holds = s.holds })

  pub data Reaches : Threads → Threads → Type 0 where
    stay : (s : Threads) → Reaches s s
    go : {s u w : Threads} → Reaches s u → Step u w → Reaches s w

  -- The word is free and nobody has the lock, or it is taken and one thread has.
  pub data Consistent (s : Threads) : Type 0 where
    free : word_at s.memory at ≡ 0 → ((t : ℕ) → s.holds t ≡ false) → Consistent s
    taken :
        (t : ℕ)
        → word_at s.memory at ≡ 1
        → s.holds t ≡ true
        → ((u : ℕ) → s.holds u ≡ true → u ≡ t)
        → Consistent s

  address-allowed :
      (op : OpCode) (m : Memory) → IsLockWord m → check_write_address op at heap_start ≡ ok tt
  unfolding check_write_address
  address-allowed op m lock = ground arith

  address-aligned : (op : OpCode) (m : Memory) → IsLockWord m → check_atomic_alignment op at ≡ ok tt
  unfolding check_atomic_alignment
  address-aligned op m lock = ground arith

  address-small : (m : Memory) → IsLockWord m → at % 18446744073709551616 ≡ at
  address-small m lock = omega arith

  checked_address-eq :
      (op : OpCode) (m : Memory) → IsLockWord m → checked_address heap_start op lock_word ≡ ok at
  unfolding checked_address
  checked_address-eq op m lock =
      rw (address-small m lock, address-allowed op m lock, address-aligned op m lock, ◌>>=◌) refl

  word-inside : (m : Memory) → IsLockWord m → in_memory m at 4 ≡ true
  unfolding in_memory
  word-inside m lock = ground arith

  atomic_lock-eq :
      (m : Memory)
      → IsLockWord m
      → atomic_lock heap_start m lock_word ≡ (
          if word_at m at == 0
          then ok (some (set_word at 1 m))
          else if word_at m at == 1
          then ok none
          else err (not_a_lock at (word_at m at)))
  unfolding atomic_lock
  atomic_lock-eq m lock =
      rw (checked_address-eq Op.atomic_lock m lock, word-inside m lock, ◌>>=◌) refl

  atomic_unlock-eq :
      (m : Memory)
      → IsLockWord m
      → atomic_unlock heap_start m lock_word ≡ (
          fail_if (not (word_at m at == 1)) (not_held at (word_at m at))
          >> ok (void, set_word at 0 m))
  unfolding atomic_unlock
  atomic_unlock-eq m lock =
      rw (checked_address-eq Op.atomic_unlock m lock, word-inside m lock, ◌>>=◌) refl

  -- A free word is taken, and one that is taken can be given back.
  pub atomic_lock-free :
      (m : Memory)
      → IsLockWord m
      → word_at m at ≡ 0
      → atomic_lock heap_start m lock_word ≡ ok (some (set_word at 1 m))
  atomic_lock-free m lock e = atomic_lock-eq m lock ∙ rw e refl

  pub atomic_unlock-taken :
      (m : Memory)
      → IsLockWord m
      → word_at m at ≡ 1
      → atomic_unlock heap_start m lock_word ≡ ok (void, set_word at 0 m)
  atomic_unlock-taken m lock e = atomic_unlock-eq m lock ∙ rw (e, ◌>>=◌) refl

  free-if :
      (b c : Bool) {m m' : Memory} (e : MemError)
      → ◌≡◌ {A = Result MemError (Option Memory)}
          (if b then ok (some m) else if c then ok none else err e)
          (ok (some m'))
      → (b ≡ true) × (m ≡ m')
  free-if true c e h = (refl, cc)
  free-if false true e h = cc
  free-if false false e h = cc

  -- A lock that is taken was free, and the word says so from then on.
  pub atomic_lock-took :
      (m m' : Memory)
      → IsLockWord m
      → atomic_lock heap_start m lock_word ≡ ok (some m')
      → (word_at m at ≡ 0) × (word_at m' at ≡ 1) × (m'.size ≡ m.size)
  atomic_lock-took m m' lock h =
      let (was, same) = free-if (word_at m at == 0) _ _ (sym (atomic_lock-eq m lock) ∙ h) in
      (
        (==_iff (word_at m at) 0).0 was,
        subst (λ n. word_at n at ≡ 1) same (read_le-write_le 4 at 1 m.bytes (omega arith)),
        ap (λ n. n.size) (sym same),
      )

  given-if :
      (b : Bool) {m m' : Memory} (e : MemError)
      → ◌≡◌ {A = Effect} (fail_if (not b) e >> ok (void, m)) (ok (void, m'))
      → m ≡ m'
  given-if true e h = cc
  given-if false e h = cc

  pub atomic_unlock-gave :
      (m m' : Memory)
      → IsLockWord m
      → atomic_unlock heap_start m lock_word ≡ ok (void, m')
      → (word_at m' at ≡ 0) × (m'.size ≡ m.size)
  atomic_unlock-gave m m' lock h =
      let same = given-if (word_at m at == 1) _ (sym (atomic_unlock-eq m lock) ∙ h) in
      (
        subst (λ n. word_at n at ≡ 0) same (read_le-write_le 4 at 0 m.bytes (omega arith)),
        ap (λ n. n.size) (sym same),
      )
