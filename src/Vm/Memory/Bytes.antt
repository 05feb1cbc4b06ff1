-- ===== src/Vm/Memory/Bytes.antt =====
-- What a write of bytes leaves, and what a read finds after it.
use aipl.Base.{ℕ, zero, suc, ◌+◌, ◌*◌, ◌/◌, ◌%◌, ◌^◌, ◌≤◌, ◌<◌, ◌≡◌, refl, ◌⊎◌, arith}
use aipl.Vm.Memory.{update, read_le, write_le}

-- Bytes outside the ones written stay as they are.
pub write_le-outside :
    (n p v : ℕ) (b : ℕ → ℕ) (q : ℕ) → (q < p) ⊎ (p + n ≤ q) → write_le n p v b q ≡ b q
unfolding write_le
write_le-outside zero p v b q h = refl
write_le-outside (suc n) p v b q h =
    let ih = write_le-outside n (p + 1) (v / 256) b q in ground arith

-- A read depends on the bytes that it reads.
pub read_le-cong :
    (n : ℕ) (b c : ℕ → ℕ) (p : ℕ)
    → ((q : ℕ) → p ≤ q → q < p + n → b q ≡ c q)
    → read_le n b p ≡ read_le n c p
unfolding read_le
read_le-cong zero b c p h = refl
read_le-cong (suc n) b c p h =
    let head = h p (omega arith) (omega arith) in
    let ih = read_le-cong n b c (p + 1) (λ q low high. h q (omega arith) (omega arith)) in
    omega (arith, head, ih)

update-here : (p x : ℕ) (b : ℕ → ℕ) → update p x b p ≡ x
update-here p x b = ground arith

update-past : (p x : ℕ) (b : ℕ → ℕ) (q : ℕ) → p < q → update p x b q ≡ b q
update-past p x b q h = ground arith

pow-suc : (n : ℕ) → 256 ^ suc n ≡ 256 * 256 ^ n
pow-suc n = omega arith

div_pow : (n v : ℕ) → v < 256 ^ suc n → v / 256 < 256 ^ n
div_pow n v h = omega (arith, pow-suc n)

-- What was written is read again, cut to the bytes written.
pub read_le-write_le : (n p v : ℕ) (b : ℕ → ℕ) → v < 256 ^ n → read_le n (write_le n p v b) p ≡ v
unfolding read_le write_le
read_le-write_le zero p v b h = omega arith
read_le-write_le (suc n) p v b h =
    let small = div_pow n v h in
    let ih = read_le-write_le n (p + 1) (v / 256) b small in
    let rest =
      read_le-cong n (write_le (suc n) p v b) (write_le n (p + 1) (v / 256) b) (p + 1)
        (λ q low high. update-past p (v % 256) (write_le n (p + 1) (v / 256) b) q (omega arith)) in
    let head = update-here p (v % 256) (write_le n (p + 1) (v / 256) b) in
    omega (arith, head, rest, ih)

pub read_le-lt : (n : ℕ) (b : ℕ → ℕ) (p : ℕ) → ((q : ℕ) → b q < 256) → read_le n b p < 256 ^ n
unfolding read_le
read_le-lt zero b p h = omega arith
read_le-lt (suc n) b p h = omega (arith, h p, read_le-lt n b (p + 1) h, pow-suc n)
