-- ===== src/Vm/Arith.antt =====
-- The arithmetic, bit and comparison operators of `eval_op` in src/vm.rs, on the operands' values. Each
-- function is one arm of the match.
pub mod InRange
use aipl.Base.{
  ℕ, ◌+◌, ◌-◌, ◌*◌, ◌/◌, ◌%◌, ◌^◌, ltb, leb, ◌==◌, ℤ, pos, negsuc, ltb_ℤ, leb_ℤ, Bool, true, false,
  ◌&&◌, not, Option, none, some, Result, ok, err, ◌>>=◌, ok_or, if◌then◌else◌,
}
use aipl.Ast.Op
use aipl.Ast.Op.{OpCode}
use aipl.Word.{
  to_bits, from_bits, wrap, is_zero, eq_ℤ, min_value, minus_one, wrapping_add, wrapping_sub,
  wrapping_mul, checked_add, checked_sub, checked_mul, quot, rem, mask, wrapping_shl, wrapping_shr,
  unsigned_shr, rotate_left, rotate_right, and_ℤ, or_ℤ, xor_ℤ, not_ℤ, leading_zeros, trailing_zeros,
  count_ones,
}
use aipl.Vm.Value.{
  Value, int, int64, float, float32, bool, FloatOps, VmError, invalid_types, division_by_zero,
  integer_overflow, checked_overflow,
}

abbrev pub Outcome : Type 0
Outcome = Result VmError Value

-- `x as i32`, of the i64 that an `Int` holds.
abbrev pub as_i32 : ℤ → ℤ
as_i32 x = wrap 32 x

-- `(y as u32) & (w - 1)`.
abbrev pub shift_count : ℕ → ℤ → ℕ
shift_count w y = to_bits 32 y % w

module _ (F : FloatOps) where
  unfoldable pub add : Value → Value → Outcome
  unfolding wrapping_add
  add (int x) (int y) = ok (int (wrapping_add 32 (as_i32 x) (as_i32 y)))
  add (int64 x) (int64 y) = ok (int64 (wrapping_add 64 x y))
  add (float x) (float y) = ok (float (F.add64 x y))
  add (float32 x) (float32 y) = ok (float32 (F.add32 x y))
  add _ _ = err (invalid_types OpCode.add)

  unfoldable pub sub : Value → Value → Outcome
  unfolding wrapping_sub
  sub (int x) (int y) = ok (int (wrapping_sub 32 (as_i32 x) (as_i32 y)))
  sub (int64 x) (int64 y) = ok (int64 (wrapping_sub 64 x y))
  sub (float x) (float y) = ok (float (F.sub64 x y))
  sub (float32 x) (float32 y) = ok (float32 (F.sub32 x y))
  sub _ _ = err (invalid_types OpCode.sub)

  unfoldable pub mul : Value → Value → Outcome
  unfolding wrapping_mul
  mul (int x) (int y) = ok (int (wrapping_mul 32 (as_i32 x) (as_i32 y)))
  mul (int64 x) (int64 y) = ok (int64 (wrapping_mul 64 x y))
  mul (float x) (float y) = ok (float (F.mul64 x y))
  mul (float32 x) (float32 y) = ok (float32 (F.mul32 x y))
  mul _ _ = err (invalid_types OpCode.mul)

  unfoldable pub div : Value → Value → Outcome
  div (int x) (int y) =
      let x32 = as_i32 x in
      let y32 = as_i32 y in
      if is_zero y32
      then err division_by_zero
      else if eq_ℤ x32 (min_value 32) && eq_ℤ y32 minus_one
      then err integer_overflow
      else ok (int (quot x32 y32))
  div (int64 x) (int64 y) =
      if is_zero y
      then err division_by_zero
      else if eq_ℤ x (min_value 64) && eq_ℤ y minus_one
      then err integer_overflow
      else ok (int64 (quot x y))
  div (float x) (float y) = ok (float (F.div64 x y))
  div (float32 x) (float32 y) = ok (float32 (F.div32 x y))
  div _ _ = err (invalid_types OpCode.div)

  unfoldable pub lt : Value → Value → Outcome
  lt (int x) (int y) = ok (bool (ltb_ℤ (as_i32 x) (as_i32 y)))
  lt (int64 x) (int64 y) = ok (bool (ltb_ℤ x y))
  lt (float x) (float y) = ok (bool (F.lt64 x y))
  lt (float32 x) (float32 y) = ok (bool (F.lt32 x y))
  lt _ _ = err (invalid_types OpCode.lt)

  unfoldable pub lte : Value → Value → Outcome
  lte (int x) (int y) = ok (bool (leb_ℤ (as_i32 x) (as_i32 y)))
  lte (int64 x) (int64 y) = ok (bool (leb_ℤ x y))
  lte (float x) (float y) = ok (bool (F.le64 x y))
  lte (float32 x) (float32 y) = ok (bool (F.le32 x y))
  lte _ _ = err (invalid_types OpCode.lte)

  unfoldable pub gt : Value → Value → Outcome
  gt (int x) (int y) = ok (bool (ltb_ℤ (as_i32 y) (as_i32 x)))
  gt (int64 x) (int64 y) = ok (bool (ltb_ℤ y x))
  gt (float x) (float y) = ok (bool (F.lt64 y x))
  gt (float32 x) (float32 y) = ok (bool (F.lt32 y x))
  gt _ _ = err (invalid_types OpCode.gt)

  unfoldable pub gte : Value → Value → Outcome
  gte (int x) (int y) = ok (bool (leb_ℤ (as_i32 y) (as_i32 x)))
  gte (int64 x) (int64 y) = ok (bool (leb_ℤ y x))
  gte (float x) (float y) = ok (bool (F.le64 y x))
  gte (float32 x) (float32 y) = ok (bool (F.le32 y x))
  gte _ _ = err (invalid_types OpCode.gte)

unfoldable pub modulo : Value → Value → Outcome
modulo (int x) (int y) =
    let x32 = as_i32 x in
    let y32 = as_i32 y in
    if is_zero y32
    then err division_by_zero
    else if eq_ℤ x32 (min_value 32) && eq_ℤ y32 minus_one
    then ok (int (pos 0))
    else ok (int (rem x32 y32))
modulo (int64 x) (int64 y) =
    if is_zero y
    then err division_by_zero
    else if eq_ℤ x (min_value 64) && eq_ℤ y minus_one
    then ok (int64 (pos 0))
    else ok (int64 (rem x y))
modulo _ _ = err (invalid_types OpCode.modulo)

unfoldable pub div_u : Value → Value → Outcome
div_u (int x) (int y) =
    let y32 = to_bits 32 (as_i32 y) in
    if y32 == 0 then err division_by_zero else ok (int (from_bits 32 (to_bits 32 (as_i32 x) / y32)))
div_u (int64 x) (int64 y) =
    if is_zero y
    then err division_by_zero
    else ok (int64 (from_bits 64 (to_bits 64 x / to_bits 64 y)))
div_u _ _ = err (invalid_types OpCode.div_u)

unfoldable pub rem_u : Value → Value → Outcome
rem_u (int x) (int y) =
    let y32 = to_bits 32 (as_i32 y) in
    if y32 == 0 then err division_by_zero else ok (int (from_bits 32 (to_bits 32 (as_i32 x) % y32)))
rem_u (int64 x) (int64 y) =
    if is_zero y
    then err division_by_zero
    else ok (int64 (from_bits 64 (to_bits 64 x % to_bits 64 y)))
rem_u _ _ = err (invalid_types OpCode.rem_u)

unfoldable pub bit_xor : Value → Value → Outcome
bit_xor (int x) (int y) = ok (int (xor_ℤ 32 (as_i32 x) (as_i32 y)))
bit_xor (int64 x) (int64 y) = ok (int64 (xor_ℤ 64 x y))
bit_xor _ _ = err (invalid_types OpCode.bit_xor)

unfoldable pub bit_and : Value → Value → Outcome
bit_and (int x) (int y) = ok (int (and_ℤ 32 (as_i32 x) (as_i32 y)))
bit_and (int64 x) (int64 y) = ok (int64 (and_ℤ 64 x y))
bit_and _ _ = err (invalid_types OpCode.bit_and)

unfoldable pub bit_or : Value → Value → Outcome
bit_or (int x) (int y) = ok (int (or_ℤ 32 (as_i32 x) (as_i32 y)))
bit_or (int64 x) (int64 y) = ok (int64 (or_ℤ 64 x y))
bit_or _ _ = err (invalid_types OpCode.bit_or)

unfoldable pub shl : Value → Value → Outcome
shl (int x) (int y) = ok (int (wrapping_shl 32 (as_i32 x) (shift_count 32 y)))
shl (int64 x) (int64 y) = ok (int64 (wrapping_shl 64 x (shift_count 64 y)))
shl _ _ = err (invalid_types OpCode.shl)

unfoldable pub shr : Value → Value → Outcome
shr (int x) (int y) = ok (int (wrapping_shr 32 (as_i32 x) (shift_count 32 y)))
shr (int64 x) (int64 y) = ok (int64 (wrapping_shr 64 x (shift_count 64 y)))
shr _ _ = err (invalid_types OpCode.shr)

unfoldable pub shr_u : Value → Value → Outcome
shr_u (int x) (int y) = ok (int (from_bits 32 (unsigned_shr 32 (as_i32 x) (shift_count 32 y))))
shr_u (int64 x) (int64 y) = ok (int64 (from_bits 64 (unsigned_shr 64 x (shift_count 64 y))))
shr_u _ _ = err (invalid_types OpCode.shr_u)

-- `left` is `matches!(op, OpCode::Rotl)`.
abbrev rotated : ℕ → Bool → ℤ → ℤ → ℤ
rotated w left x y =
    let b = to_bits w x in
    let n = shift_count w y in wrap w (pos (if left then rotate_left w b n else rotate_right w b n))

unfoldable pub rotate : Bool → Value → Value → Outcome
rotate left (int x) (int y) = ok (int (rotated 32 left (as_i32 x) y))
rotate left (int64 x) (int64 y) = ok (int64 (rotated 64 left x y))
rotate left _ _ = err (invalid_types (if left then OpCode.rotl else OpCode.rotr))

unfoldable pub bit_not : Value → Outcome
bit_not (int x) = ok (int (not_ℤ (as_i32 x)))
bit_not (int64 x) = ok (int64 (not_ℤ x))
bit_not _ = err (invalid_types OpCode.bit_not)

-- Clz, Ctz and Popcnt share an arm: the count of a width and a bit pattern.
unfoldable pub count_bits : OpCode → (ℕ → ℕ → ℕ) → Value → Outcome
count_bits op count (int x) = ok (int (pos (count 32 (to_bits 32 (as_i32 x)))))
count_bits op count (int64 x) = ok (int64 (pos (count 64 (to_bits 64 x))))
count_bits op count _ = err (invalid_types op)

unfoldable pub not_op : Value → Outcome
not_op (bool x) = ok (bool (not x))
not_op _ = err (invalid_types OpCode.not_op)

abbrev eq_Bool : Bool → Bool → Bool
eq_Bool true b = b
eq_Bool false b = not b

abbrev second : OpCode → Value → Outcome
second op (bool y) = ok (bool y)
second op _ = err (invalid_types op)

-- Short-circuit: the second operand is evaluated only when the first does not decide the result.
-- `is_or` is `matches!(op, OpCode::Or)`; the second operand is what its evaluation gives.
unfoldable pub and_or : OpCode → Bool → Value → Outcome → Outcome
and_or op is_or (bool a) b = if eq_Bool a is_or then ok (bool a) else b >>= second op
and_or op is_or _ b = err (invalid_types op)

abbrev pub checked_result : OpCode → (ℤ → Value) → Option ℤ → Outcome
checked_result op of none = err (checked_overflow op)
checked_result op of (some v) = ok (of v)

-- CheckedAdd, CheckedSub and CheckedMul share an arm: the checked operation of a width.
unfoldable pub checked_op : OpCode → (ℕ → ℤ → ℤ → Option ℤ) → Value → Value → Outcome
checked_op op f (int x) (int y) = checked_result op int (f 32 (as_i32 x) (as_i32 y))
checked_op op f (int64 x) (int64 y) = checked_result op int64 (f 64 x y)
checked_op op f _ _ = err (invalid_types op)

-- LtU, LteU, GtU and GteU share an arm: the test of two bit patterns.
unfoldable pub compare_u : OpCode → (ℕ → ℕ → Bool) → Value → Value → Outcome
compare_u op test (int x) (int y) = ok (bool (test (to_bits 32 (as_i32 x)) (to_bits 32 (as_i32 y))))
compare_u op test (int64 x) (int64 y) = ok (bool (test (to_bits 64 x) (to_bits 64 y)))
compare_u op test _ _ = err (invalid_types op)

-- The operators of two strict operands, by opcode; `none` for any other opcode.
unfoldable pub binary : FloatOps → OpCode → Option (Value → Value → Outcome)
unfolding wrapping_add
binary F OpCode.add = some (add F)
binary F OpCode.sub = some (sub F)
binary F OpCode.mul = some (mul F)
binary F OpCode.div = some (div F)
binary F OpCode.modulo = some modulo
binary F OpCode.div_u = some div_u
binary F OpCode.rem_u = some rem_u
binary F OpCode.bit_xor = some bit_xor
binary F OpCode.shl = some shl
binary F OpCode.shr = some shr
binary F OpCode.shr_u = some shr_u
binary F OpCode.bit_and = some bit_and
binary F OpCode.bit_or = some bit_or
binary F OpCode.rotl = some (rotate true)
binary F OpCode.rotr = some (rotate false)
binary F OpCode.lt = some (lt F)
binary F OpCode.lte = some (lte F)
binary F OpCode.gt = some (gt F)
binary F OpCode.gte = some (gte F)
binary F OpCode.checked_add = some (checked_op OpCode.checked_add checked_add)
binary F OpCode.checked_sub = some (checked_op OpCode.checked_sub checked_sub)
binary F OpCode.checked_mul = some (checked_op OpCode.checked_mul checked_mul)
binary F OpCode.lt_u = some (compare_u OpCode.lt_u ltb)
binary F OpCode.lte_u = some (compare_u OpCode.lte_u leb)
binary F OpCode.gt_u = some (compare_u OpCode.gt_u (λ a b. ltb b a))
binary F OpCode.gte_u = some (compare_u OpCode.gte_u (λ a b. leb b a))
binary F _ = none

-- The operators of one operand.
unfoldable pub unary : OpCode → Option (Value → Outcome)
unary OpCode.bit_not = some bit_not
unary OpCode.clz = some (count_bits OpCode.clz leading_zeros)
unary OpCode.ctz = some (count_bits OpCode.ctz trailing_zeros)
unary OpCode.popcnt = some (count_bits OpCode.popcnt count_ones)
unary OpCode.not_op = some not_op
unary _ = none
