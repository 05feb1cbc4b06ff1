-- ===== src/Word.antt =====
-- Rust's fixed-width integers, as far as the constant folder and the virtual machine use them: a value
-- of type i32 or i64 is the integer that it stands for, and `w` is the width.
pub mod Range
use Prim.Native.Nat.{bit_and, bit_or, bit_xor}
use aipl.Base.{
  ℕ, zero, suc, ◌+◌, ◌-◌, ◌*◌, ◌/◌, ◌%◌, ◌^◌, ◌≤◌, ◌<◌, ◌==◌, ltb, leb, ℤ, pos, negsuc, pos_part,
  neg_part, neg, nat_abs, ◌+ℤ◌, ◌-ℤ◌, ◌*ℤ◌, Bool, true, false, ◌&&◌, not, Option, none, some,
  if◌then◌else◌,
}

-- `v as uW`: the two's complement bit pattern.
abbrev pub to_bits : ℕ → ℤ → ℕ
to_bits w (pos n) = n % 2 ^ w
to_bits w (negsuc n) = 2 ^ w - 1 - n % 2 ^ w

-- `b as iW`, for a pattern below 2 ^ w.
abbrev pub from_bits : ℕ → ℕ → ℤ
from_bits w b = if ltb b (2 ^ (w - 1)) then pos b else negsuc (2 ^ w - 1 - b)

-- `v as iW`: the low bits, sign-extended.
abbrev pub wrap : ℕ → ℤ → ℤ
wrap w v = from_bits w (to_bits w v)

-- The values of an iW.
abbrev pub InRange : ℕ → ℤ → Type 0
InRange w (pos n) = n < 2 ^ (w - 1)
InRange w (negsuc n) = n < 2 ^ (w - 1)

abbrev pub in_range : ℕ → ℤ → Bool
in_range w (pos n) = ltb n (2 ^ (w - 1))
in_range w (negsuc n) = ltb n (2 ^ (w - 1))

abbrev pub eq_ℤ : ℤ → ℤ → Bool
eq_ℤ (pos n) (pos m) = n == m
eq_ℤ (negsuc n) (negsuc m) = n == m
eq_ℤ _ _ = false

abbrev pub is_zero : ℤ → Bool
is_zero v = eq_ℤ v (pos 0)

-- iW::MIN, and -1.
abbrev pub min_value : ℕ → ℤ
min_value w = negsuc (2 ^ (w - 1) - 1)

abbrev pub minus_one : ℤ
minus_one = negsuc 0

unfoldable pub wrapping_add : ℕ → ℤ → ℤ → ℤ
wrapping_add w x y = wrap w (x +ℤ y)

unfoldable pub wrapping_sub : ℕ → ℤ → ℤ → ℤ
wrapping_sub w x y = wrap w (x -ℤ y)

unfoldable pub wrapping_mul : ℕ → ℤ → ℤ → ℤ
wrapping_mul w x y = wrap w (x *ℤ y)

abbrev pub checked : ℕ → ℤ → Option ℤ
checked w v = if in_range w v then some v else none

unfoldable pub checked_add : ℕ → ℤ → ℤ → Option ℤ
checked_add w x y = checked w (x +ℤ y)

unfoldable pub checked_sub : ℕ → ℤ → ℤ → Option ℤ
checked_sub w x y = checked w (x -ℤ y)

unfoldable pub checked_mul : ℕ → ℤ → ℤ → Option ℤ
checked_mul w x y = checked w (x *ℤ y)

-- `x / y` and `x % y` for y other than 0: toward zero, the remainder with the sign of x.
unfoldable pub quot : ℤ → ℤ → ℤ
quot (pos a) (pos b) = pos (a / b)
quot (pos a) (negsuc b) = neg (pos (a / suc b))
quot (negsuc a) (pos b) = neg (pos (suc a / b))
quot (negsuc a) (negsuc b) = pos (suc a / suc b)

unfoldable pub rem : ℤ → ℤ → ℤ
rem (pos a) (pos b) = pos (a % b)
rem (pos a) (negsuc b) = pos (a % suc b)
rem (negsuc a) (pos b) = neg (pos (suc a % b))
rem (negsuc a) (negsuc b) = neg (pos (suc a % suc b))

-- The count of a shift, as the operations mask it.
abbrev pub mask : ℕ → ℕ → ℕ
mask w n = n % w

unfoldable pub wrapping_shl : ℕ → ℤ → ℕ → ℤ
wrapping_shl w x n = wrap w (pos (to_bits w x * 2 ^ mask w n))

-- Arithmetic: the sign is kept.
unfoldable pub wrapping_shr : ℕ → ℤ → ℕ → ℤ
wrapping_shr w (pos a) n = pos (a / 2 ^ mask w n)
wrapping_shr w (negsuc a) n = negsuc (a / 2 ^ mask w n)

-- `(x as uW).wrapping_shr(n)`: zeros come in.
unfoldable pub unsigned_shr : ℕ → ℤ → ℕ → ℕ
unsigned_shr w x n = to_bits w x / 2 ^ mask w n

unfoldable pub rotate_left : ℕ → ℕ → ℕ → ℕ
rotate_left w b n = b * 2 ^ mask w n % 2 ^ w + b / 2 ^ (w - mask w n)

unfoldable pub rotate_right : ℕ → ℕ → ℕ → ℕ
rotate_right w b n = b / 2 ^ mask w n + b * 2 ^ (w - mask w n) % 2 ^ w

unfoldable pub and_ℤ : ℕ → ℤ → ℤ → ℤ
and_ℤ w x y = wrap w (pos (bit_and (to_bits w x) (to_bits w y)))

unfoldable pub or_ℤ : ℕ → ℤ → ℤ → ℤ
or_ℤ w x y = wrap w (pos (bit_or (to_bits w x) (to_bits w y)))

unfoldable pub xor_ℤ : ℕ → ℤ → ℤ → ℤ
xor_ℤ w x y = wrap w (pos (bit_xor (to_bits w x) (to_bits w y)))

-- `!x`: every bit flipped.
unfoldable pub not_ℤ : ℤ → ℤ
not_ℤ (pos n) = negsuc n
not_ℤ (negsuc n) = pos n

-- The zeros before the first one, from the top bit of `w` down.
unfoldable pub leading_zeros : ℕ → ℕ → ℕ
leading_zeros zero b = 0
leading_zeros (suc w) b = if leb (2 ^ w) b then 0 else suc (leading_zeros w b)

unfoldable pub trailing_zeros : ℕ → ℕ → ℕ
trailing_zeros zero b = 0
trailing_zeros (suc w) b = if b % 2 == 1 then 0 else suc (trailing_zeros w (b / 2))

unfoldable pub count_ones : ℕ → ℕ → ℕ
count_ones zero b = 0
count_ones (suc w) b = b % 2 + count_ones w (b / 2)
