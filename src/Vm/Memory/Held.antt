-- ===== src/Vm/Memory/Held.antt =====
-- Who holds a lock word of src/vm.rs, and how it goes from thread to thread.
use aipl.Base.{ℕ, ◌≤◌, ◌≡◌, sym, ◌∙◌, ◌⊎◌, inl, inr, true, false, some, ok, arith}
use aipl.Vm.Value.{void}
use aipl.Vm.Memory.{Memory}
use aipl.Vm.Memory.Atomic.{word_at, set_word, atomic_lock, atomic_unlock}
use aipl.Vm.Memory.Bytes.{read_le-cong, read_le-write_le}
use aipl.Vm.Memory.Locks.{
  Threads, IsLockWord, lock_word, Step, acquire, spin, release, other, Reaches, stay, go,
  Consistent, free, taken, atomic_lock-free, atomic_unlock-taken, atomic_lock-took,
  atomic_unlock-gave,
}

module _ (heap_start at : ℕ) where
  word-larger :
      (m m' : Memory) → m.size ≤ m'.size → IsLockWord heap_start at m → IsLockWord heap_start at m'
  word-larger m m' h (low, apart, aligned, small, inside) =
      (low, apart, aligned, small, omega arith)

  Step-Consistent :
      (s u : Threads)
      → IsLockWord heap_start at s.memory
      → Consistent heap_start at s
      → Step heap_start at s u
      → IsLockWord heap_start at u.memory × Consistent heap_start at u
  Step-Consistent s u lock c (acquire _ t m e) =
      let (was, word, size) = atomic_lock-took heap_start at s.memory m lock e in
      (
        word-larger s.memory m (omega arith) lock,
        elim c [
          | free _ none ↦ taken t word (ground arith) (λ u h. ground (arith, none u))
          | taken _ word' _ _ ↦ absurd (omega arith)
        ],
      )
  Step-Consistent s u lock c (spin _ e) = (lock, c)
  Step-Consistent s u lock c (release _ t m has e) =
      let (word, size) = atomic_unlock-gave heap_start at s.memory m lock e in
      (
        word-larger s.memory m (omega arith) lock,
        free word (λ u. elim c [
          | free _ none ↦ ground (arith, none u)
          | taken t' _ _ only ↦ ground (arith, only u, only t has)
        ]),
      )
  Step-Consistent s u lock c (other _ m same size) =
      let word = read_le-cong 4 m.bytes s.memory.bytes at same in
      (
        word-larger s.memory m size lock,
        elim c [
          | free word' none ↦ free (word ∙ word') none
          | taken t word' has only ↦ taken t (word ∙ word') has only
        ],
      )

  Reaches-Consistent :
      (s u : Threads)
      → IsLockWord heap_start at s.memory
      → Consistent heap_start at s
      → Reaches heap_start at s u
      → IsLockWord heap_start at u.memory × Consistent heap_start at u
  Reaches-Consistent s u lock c (stay _) = (lock, c)
  Reaches-Consistent s u lock c (go {u = v} path step) =
      let (lock', c') = Reaches-Consistent s v lock c path in Step-Consistent v u lock' c' step

-- Threads that start with nobody having the lock and its word 0, an aligned word in the memory that the
-- other instructions leave alone, never have it both at a time.
pub Reaches-one_holder :
    (heap_start at : ℕ) (s u : Threads) (t t' : ℕ)
    → IsLockWord heap_start at s.memory
    → word_at s.memory at ≡ 0
    → ((v : ℕ) → s.holds v ≡ false)
    → Reaches heap_start at s u
    → u.holds t ≡ true
    → u.holds t' ≡ true
    → t ≡ t'
Reaches-one_holder heap_start at s u t t' lock word nobody path h k =
    let (_, c) = Reaches-Consistent heap_start at s u lock (free word nobody) path in
    elim c [
      | free _ none ↦ let bad : true ≡ false = sym h ∙ none t in absurd (cc)
      | taken v _ _ only ↦ only t h ∙ sym (only t' k)
    ]

-- From the same start, in whatever state the threads are, either an attempt to take the lock succeeds, or
-- the thread that has it can give it back, and an attempt that follows succeeds.
pub Reaches-goes_on :
    (heap_start at : ℕ) (s u : Threads)
    → IsLockWord heap_start at s.memory
    → word_at s.memory at ≡ 0
    → ((v : ℕ) → s.holds v ≡ false)
    → Reaches heap_start at s u
    → ((m : Memory) × (atomic_lock heap_start u.memory (lock_word heap_start at) ≡ ok (some m)))
      ⊎ ((t : ℕ) × (m : Memory) × (m' : Memory) × (u.holds t ≡ true)
          × (atomic_unlock heap_start u.memory (lock_word heap_start at) ≡ ok (void, m))
          × (atomic_lock heap_start m (lock_word heap_start at) ≡ ok (some m')))
Reaches-goes_on heap_start at s u lock word nobody path =
    let (lock', c) = Reaches-Consistent heap_start at s u lock (free word nobody) path in
    elim c [
      | free word' none ↦
          inl (set_word at 1 u.memory, atomic_lock-free heap_start at u.memory lock' word')
      | taken t word' has only ↦
          let given = set_word at 0 u.memory in
          inr (
            t,
            given,
            set_word at 1 given,
            has,
            atomic_unlock-taken heap_start at u.memory lock' word',
            atomic_lock-free heap_start at given lock'
                (read_le-write_le 4 at 0 u.memory.bytes (omega arith)),
          )
    ]
