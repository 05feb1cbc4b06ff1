-- ===== src/Word/Range.antt =====
-- The ranges of fixed-width integers. The widths are 32 and 64.
use aipl.Base.{
  ℕ, zero, suc, ◌/◌, ◌≤◌, ◌≡◌, refl, ℤ, pos, negsuc, false, ◌&&◌, arith, ◌<◌, ◌^◌, ◌%◌, ◌*◌,
}
use Prim.Native.Nat.{suc-le-suc, bit_and, bit_or, bit_xor}
use native.Mathlib.Nat.{le_trans, div-le_self}
use mathlib.Core.Option.{some}
use aipl.Word.{
  to_bits, checked, wrap, InRange, min_value, minus_one, quot, rem, not_ℤ, leading_zeros,
  trailing_zeros, count_ones, is_zero, eq_ℤ, wrapping_shr, from_bits, xor_ℤ, and_ℤ, or_ℤ,
  wrapping_shl, mask, unsigned_shr,
}

pub data Width : Type 0 where
  w32 w64 : Width

abbrev pub bits : Width → ℕ
bits w32 = 32
bits w64 = 64

pub wrap_id : (w : Width) (v : ℤ) → InRange (bits w) v → wrap (bits w) v ≡ v
wrap_id w32 (pos n) h = ground arith
wrap_id w32 (negsuc n) h = ground arith
wrap_id w64 (pos n) h = ground arith
wrap_id w64 (negsuc n) h = ground arith

pub wrap-InRange : (w : Width) (v : ℤ) → InRange (bits w) (wrap (bits w) v)
wrap-InRange w32 (pos n) = ground arith
wrap-InRange w32 (negsuc n) = ground arith
wrap-InRange w64 (pos n) = ground arith
wrap-InRange w64 (negsuc n) = ground arith

-- Division leaves the range only at the smallest value by -1.
pub quot-InRange :
    (w : Width) (x y : ℤ)
    → InRange (bits w) x
    → is_zero y ≡ false
    → (eq_ℤ x (min_value (bits w)) && eq_ℤ y minus_one) ≡ false
    → InRange (bits w) (quot x y)
unfolding quot
quot-InRange w32 (pos a) (pos b) h nz kept = ground arith
quot-InRange w32 (pos a) (negsuc b) h nz kept = ground arith
quot-InRange w32 (negsuc a) (pos b) h nz kept = ground arith
quot-InRange w32 (negsuc a) (negsuc b) h nz kept = ground arith
quot-InRange w64 (pos a) (pos b) h nz kept = ground arith
quot-InRange w64 (pos a) (negsuc b) h nz kept = ground arith
quot-InRange w64 (negsuc a) (pos b) h nz kept = ground arith
quot-InRange w64 (negsuc a) (negsuc b) h nz kept = ground arith

pub rem-InRange :
    (w : Width) (x y : ℤ) → InRange (bits w) x → InRange (bits w) y → InRange (bits w) (rem x y)
unfolding rem
rem-InRange w32 (pos a) (pos b) h k = ground arith
rem-InRange w32 (pos a) (negsuc b) h k = ground arith
rem-InRange w32 (negsuc a) (pos b) h k = ground arith
rem-InRange w32 (negsuc a) (negsuc b) h k = ground arith
rem-InRange w64 (pos a) (pos b) h k = ground arith
rem-InRange w64 (pos a) (negsuc b) h k = ground arith
rem-InRange w64 (negsuc a) (pos b) h k = ground arith
rem-InRange w64 (negsuc a) (negsuc b) h k = ground arith

-- The remainder of the smallest value by -1 is 0, as the machine gives it.
pub rem_min : (w : Width) → rem (min_value (bits w)) minus_one ≡ pos 0
unfolding rem
rem_min w32 = refl
rem_min w64 = refl

pub not-InRange : (w : Width) (v : ℤ) → InRange (bits w) v → InRange (bits w) (not_ℤ v)
unfolding not_ℤ
not-InRange w (pos n) h = h
not-InRange w (negsuc n) h = h

pub leading_zeros-le : (w b : ℕ) → leading_zeros w b ≤ w
unfolding leading_zeros
leading_zeros-le zero b = omega arith
leading_zeros-le (suc w) b = ground (arith, leading_zeros-le w b)

pub trailing_zeros-le : (w b : ℕ) → trailing_zeros w b ≤ w
unfolding trailing_zeros
trailing_zeros-le zero b = omega arith
trailing_zeros-le (suc w) b = ground (arith, trailing_zeros-le w (b / 2))

pub count_ones-le : (w b : ℕ) → count_ones w b ≤ w
unfolding count_ones
count_ones-le zero b = omega arith
count_ones-le (suc w) b = omega (arith, count_ones-le w (b / 2))

pub to_bits-lt : (w : Width) (v : ℤ) → to_bits (bits w) v < 2 ^ bits w
to_bits-lt w32 (pos n) = omega arith
to_bits-lt w32 (negsuc n) = omega arith
to_bits-lt w64 (pos n) = omega arith
to_bits-lt w64 (negsuc n) = omega arith

pub from_bits-InRange :
    (w : Width) (b : ℕ) → b < 2 ^ bits w → InRange (bits w) (from_bits (bits w) b)
from_bits-InRange w32 b h = ground arith
from_bits-InRange w64 b h = ground arith

pub shr-InRange :
    (w : Width) (v : ℤ) (n : ℕ) → InRange (bits w) v → InRange (bits w) (wrapping_shr (bits w) v n)
unfolding wrapping_shr
shr-InRange w (pos a) n h = le_trans (suc-le-suc (div-le_self a _)) h
shr-InRange w (negsuc a) n h = le_trans (suc-le-suc (div-le_self a _)) h

pub div-lt_bits : (a b m : ℕ) → a < m → a / b < m
div-lt_bits a b m h = le_trans (suc-le-suc (div-le_self a b)) h

pub mod-lt_bits : (a b m : ℕ) → a < m → a % b < m
mod-lt_bits a b m h = omega arith

-- A count of bits fits both widths.
pub count-InRange : (w : Width) (n : ℕ) → n ≤ bits w → InRange (bits w) (pos n)
count-InRange w32 n h = omega arith
count-InRange w64 n h = omega arith

pub checked-InRange : (w : Width) (u v : ℤ) → checked (bits w) u ≡ some v → InRange (bits w) v
checked-InRange w32 u v h = ground arith
checked-InRange w64 u v h = ground arith

pub xor_ℤ-InRange : (w : Width) (x y : ℤ) → InRange (bits w) (xor_ℤ (bits w) x y)
unfolding xor_ℤ
xor_ℤ-InRange w x y = wrap-InRange w (pos (bit_xor (to_bits (bits w) x) (to_bits (bits w) y)))

pub and_ℤ-InRange : (w : Width) (x y : ℤ) → InRange (bits w) (and_ℤ (bits w) x y)
unfolding and_ℤ
and_ℤ-InRange w x y = wrap-InRange w (pos (bit_and (to_bits (bits w) x) (to_bits (bits w) y)))

pub or_ℤ-InRange : (w : Width) (x y : ℤ) → InRange (bits w) (or_ℤ (bits w) x y)
unfolding or_ℤ
or_ℤ-InRange w x y = wrap-InRange w (pos (bit_or (to_bits (bits w) x) (to_bits (bits w) y)))

pub shl-InRange : (w : Width) (x : ℤ) (n : ℕ) → InRange (bits w) (wrapping_shl (bits w) x n)
unfolding wrapping_shl
shl-InRange w x n = wrap-InRange w (pos (to_bits (bits w) x * 2 ^ mask (bits w) n))

-- Shifting zeros in gives a pattern of the same width.
pub unsigned_shr-InRange :
    (w : Width) (x : ℤ) (n : ℕ) → InRange (bits w) (from_bits (bits w) (unsigned_shr (bits w) x n))
unfolding unsigned_shr
unsigned_shr-InRange w x n = from_bits-InRange w _ (div-lt_bits _ _ _ (to_bits-lt w x))
