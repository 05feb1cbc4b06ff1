-- ===== src/Vm/Arith/InRange.antt =====
-- The ranges of the integers that the operators of src/vm.rs return.
use aipl.Base.{
  ℕ, ◌≤◌, ◌≡◌, refl, ℤ, pos, Bool, true, false, ◌&&◌, Option, none, some, ok, err, subst, arith,
  if◌then◌else◌, ◌==◌, ◌+ℤ◌, ◌-ℤ◌, ◌*ℤ◌,
}
use aipl.Ast.Op.{OpCode}
use aipl.Word.{
  to_bits, InRange, checked_add, checked_sub, checked_mul, leading_zeros, trailing_zeros,
  count_ones, wrapping_add, wrapping_sub, wrapping_mul, min_value, minus_one, is_zero, eq_ℤ,
  checked, rotate_left, rotate_right,
}
use aipl.Word.Range.{
  w32, w64, wrap-InRange, quot-InRange, rem-InRange, not-InRange, leading_zeros-le,
  trailing_zeros-le, count_ones-le, to_bits-lt, from_bits-InRange, shr-InRange, div-lt_bits,
  mod-lt_bits, count-InRange, checked-InRange, xor_ℤ-InRange, and_ℤ-InRange, or_ℤ-InRange,
  shl-InRange, unsigned_shr-InRange,
}
use aipl.Vm.Value.{Value, int, int64, float, float32, bool, FloatOps, VmError}
use aipl.Vm.Arith.{
  Outcome, as_i32, add, sub, mul, div, lt, lte, gt, gte, modulo, div_u, rem_u, bit_xor, bit_and,
  bit_or, shl, shr, shr_u, rotate, bit_not, count_bits, not_op, checked_op, compare_u, binary,
  unary, shift_count, checked_result,
}

-- An i64 is in range; of the i64 that holds an i32 nothing is asked.
abbrev pub IsInput : Value → Type 0
IsInput (int64 v) = InRange 64 v
IsInput _ = Unit

-- An integer is in the range of its type.
abbrev pub Fits : Value → Type 0
Fits (int v) = InRange 32 v
Fits (int64 v) = InRange 64 v
Fits _ = Unit

-- The outcome is an error, or a value that fits.
data Yields : Outcome → Type 0 where
  fits : {r : Value} → Fits r → Yields (ok r)
  failed : {e : VmError} → Yields (err e)

Yields-if :
    (b : Bool) {x y : Outcome}
    → (b ≡ true → Yields x)
    → (b ≡ false → Yields y)
    → Yields (if b then x else y)
Yields-if true p q = p refl
Yields-if false p q = q refl

module _ (F : FloatOps) where
  add-Yields : (a b : Value) → Yields (add F a b)
  unfolding add wrapping_add
  add-Yields (int x) (int y) = fits (wrap-InRange w32 _)
  add-Yields (int64 x) (int64 y) = fits (wrap-InRange w64 _)
  add-Yields (float x) (float y) = fits tt
  add-Yields (float32 x) (float32 y) = fits tt
  add-Yields _ _ = failed

  sub-Yields : (a b : Value) → Yields (sub F a b)
  unfolding sub wrapping_sub
  sub-Yields (int x) (int y) = fits (wrap-InRange w32 _)
  sub-Yields (int64 x) (int64 y) = fits (wrap-InRange w64 _)
  sub-Yields (float x) (float y) = fits tt
  sub-Yields (float32 x) (float32 y) = fits tt
  sub-Yields _ _ = failed

  mul-Yields : (a b : Value) → Yields (mul F a b)
  unfolding mul wrapping_mul
  mul-Yields (int x) (int y) = fits (wrap-InRange w32 _)
  mul-Yields (int64 x) (int64 y) = fits (wrap-InRange w64 _)
  mul-Yields (float x) (float y) = fits tt
  mul-Yields (float32 x) (float32 y) = fits tt
  mul-Yields _ _ = failed

  div-Yields : (a b : Value) → IsInput a → Yields (div F a b)
  unfolding div
  div-Yields (int x) (int y) h =
      Yields-if (is_zero (as_i32 y)) (λ _. failed)
        λ nz.
          Yields-if (eq_ℤ (as_i32 x) (min_value 32) && eq_ℤ (as_i32 y) minus_one) (λ _. failed)
            λ kept. fits (quot-InRange w32 (as_i32 x) (as_i32 y) (wrap-InRange w32 x) nz kept)
  div-Yields (int64 x) (int64 y) h =
      Yields-if (is_zero y) (λ _. failed)
        λ nz.
          Yields-if (eq_ℤ x (min_value 64) && eq_ℤ y minus_one) (λ _. failed)
            λ kept. fits (quot-InRange w64 x y h nz kept)
  div-Yields (float x) (float y) h = fits tt
  div-Yields (float32 x) (float32 y) h = fits tt
  div-Yields _ _ h = failed

  lt-Yields : (a b : Value) → Yields (lt F a b)
  unfolding lt
  lt-Yields (int x) (int y) = fits tt
  lt-Yields (int64 x) (int64 y) = fits tt
  lt-Yields (float x) (float y) = fits tt
  lt-Yields (float32 x) (float32 y) = fits tt
  lt-Yields _ _ = failed

  lte-Yields : (a b : Value) → Yields (lte F a b)
  unfolding lte
  lte-Yields (int x) (int y) = fits tt
  lte-Yields (int64 x) (int64 y) = fits tt
  lte-Yields (float x) (float y) = fits tt
  lte-Yields (float32 x) (float32 y) = fits tt
  lte-Yields _ _ = failed

  gt-Yields : (a b : Value) → Yields (gt F a b)
  unfolding gt
  gt-Yields (int x) (int y) = fits tt
  gt-Yields (int64 x) (int64 y) = fits tt
  gt-Yields (float x) (float y) = fits tt
  gt-Yields (float32 x) (float32 y) = fits tt
  gt-Yields _ _ = failed

  gte-Yields : (a b : Value) → Yields (gte F a b)
  unfolding gte
  gte-Yields (int x) (int y) = fits tt
  gte-Yields (int64 x) (int64 y) = fits tt
  gte-Yields (float x) (float y) = fits tt
  gte-Yields (float32 x) (float32 y) = fits tt
  gte-Yields _ _ = failed

modulo-Yields : (a b : Value) → IsInput a → IsInput b → Yields (modulo a b)
unfolding modulo
modulo-Yields (int x) (int y) h k =
    Yields-if (is_zero (as_i32 y)) (λ _. failed)
      λ nz.
        Yields-if (eq_ℤ (as_i32 x) (min_value 32) && eq_ℤ (as_i32 y) minus_one)
          (λ _. fits (omega arith))
          λ kept.
            fits (rem-InRange w32 (as_i32 x) (as_i32 y) (wrap-InRange w32 x) (wrap-InRange w32 y))
modulo-Yields (int64 x) (int64 y) h k =
    Yields-if (is_zero y) (λ _. failed)
      λ nz.
        Yields-if (eq_ℤ x (min_value 64) && eq_ℤ y minus_one) (λ _. fits (omega arith))
          λ kept. fits (rem-InRange w64 x y h k)
modulo-Yields _ _ h k = failed

div_u-Yields : (a b : Value) → Yields (div_u a b)
unfolding div_u
div_u-Yields (int x) (int y) =
    Yields-if (to_bits 32 (as_i32 y) == 0) (λ _. failed)
      λ nz. fits (from_bits-InRange w32 _ (div-lt_bits _ _ _ (to_bits-lt w32 (as_i32 x))))
div_u-Yields (int64 x) (int64 y) =
    Yields-if (is_zero y) (λ _. failed)
      λ nz. fits (from_bits-InRange w64 _ (div-lt_bits _ _ _ (to_bits-lt w64 x)))
div_u-Yields _ _ = failed

rem_u-Yields : (a b : Value) → Yields (rem_u a b)
unfolding rem_u
rem_u-Yields (int x) (int y) =
    Yields-if (to_bits 32 (as_i32 y) == 0) (λ _. failed)
      λ nz. fits (from_bits-InRange w32 _ (mod-lt_bits _ _ _ (to_bits-lt w32 (as_i32 x))))
rem_u-Yields (int64 x) (int64 y) =
    Yields-if (is_zero y) (λ _. failed)
      λ nz. fits (from_bits-InRange w64 _ (mod-lt_bits _ _ _ (to_bits-lt w64 x)))
rem_u-Yields _ _ = failed

bit_xor-Yields : (a b : Value) → Yields (bit_xor a b)
unfolding bit_xor
bit_xor-Yields (int x) (int y) = fits (xor_ℤ-InRange w32 (as_i32 x) (as_i32 y))
bit_xor-Yields (int64 x) (int64 y) = fits (xor_ℤ-InRange w64 x y)
bit_xor-Yields _ _ = failed

bit_and-Yields : (a b : Value) → Yields (bit_and a b)
unfolding bit_and
bit_and-Yields (int x) (int y) = fits (and_ℤ-InRange w32 (as_i32 x) (as_i32 y))
bit_and-Yields (int64 x) (int64 y) = fits (and_ℤ-InRange w64 x y)
bit_and-Yields _ _ = failed

bit_or-Yields : (a b : Value) → Yields (bit_or a b)
unfolding bit_or
bit_or-Yields (int x) (int y) = fits (or_ℤ-InRange w32 (as_i32 x) (as_i32 y))
bit_or-Yields (int64 x) (int64 y) = fits (or_ℤ-InRange w64 x y)
bit_or-Yields _ _ = failed

shl-Yields : (a b : Value) → Yields (shl a b)
unfolding shl
shl-Yields (int x) (int y) = fits (shl-InRange w32 (as_i32 x) (shift_count 32 y))
shl-Yields (int64 x) (int64 y) = fits (shl-InRange w64 x (shift_count 64 y))
shl-Yields _ _ = failed

shr-Yields : (a b : Value) → IsInput a → Yields (shr a b)
unfolding shr
shr-Yields (int x) (int y) h =
    fits (shr-InRange w32 (as_i32 x) (shift_count 32 y) (wrap-InRange w32 x))
shr-Yields (int64 x) (int64 y) h = fits (shr-InRange w64 x (shift_count 64 y) h)
shr-Yields _ _ h = failed

shr_u-Yields : (a b : Value) → Yields (shr_u a b)
unfolding shr_u
shr_u-Yields (int x) (int y) = fits (unsigned_shr-InRange w32 (as_i32 x) (shift_count 32 y))
shr_u-Yields (int64 x) (int64 y) = fits (unsigned_shr-InRange w64 x (shift_count 64 y))
shr_u-Yields _ _ = failed

rotate-Yields : (left : Bool) (a b : Value) → Yields (rotate left a b)
unfolding rotate
rotate-Yields true (int x) (int y) =
    fits (wrap-InRange w32 (pos (rotate_left 32 (to_bits 32 (as_i32 x)) (shift_count 32 y))))
rotate-Yields false (int x) (int y) =
    fits (wrap-InRange w32 (pos (rotate_right 32 (to_bits 32 (as_i32 x)) (shift_count 32 y))))
rotate-Yields true (int64 x) (int64 y) =
    fits (wrap-InRange w64 (pos (rotate_left 64 (to_bits 64 x) (shift_count 64 y))))
rotate-Yields false (int64 x) (int64 y) =
    fits (wrap-InRange w64 (pos (rotate_right 64 (to_bits 64 x) (shift_count 64 y))))
rotate-Yields left _ _ = failed

checked_result-Yields :
    (op : OpCode) (of : ℤ → Value) (o : Option ℤ)
    → ((v : ℤ) → o ≡ some v → Fits (of v))
    → Yields (checked_result op of o)
checked_result-Yields op of none h = failed
checked_result-Yields op of (some v) h = fits (h v refl)

-- `u` is the exact operation, whose result is checked.
checked_op-Yields :
    (op : OpCode) (u : ℤ → ℤ → ℤ) (a b : Value)
    → Yields (checked_op op (λ w x y. checked w (u x y)) a b)
unfolding checked_op
checked_op-Yields op u (int x) (int y) =
    checked_result-Yields op int _ (checked-InRange w32 (u (as_i32 x) (as_i32 y)))
checked_op-Yields op u (int64 x) (int64 y) =
    checked_result-Yields op int64 _ (checked-InRange w64 (u x y))
checked_op-Yields op u _ _ = failed

compare_u-Yields :
    (op : OpCode) (test : ℕ → ℕ → Bool) (a b : Value) → Yields (compare_u op test a b)
unfolding compare_u
compare_u-Yields op test (int x) (int y) = fits tt
compare_u-Yields op test (int64 x) (int64 y) = fits tt
compare_u-Yields op test _ _ = failed

count_bits-Yields :
    (op : OpCode) (count : ℕ → ℕ → ℕ)
    → ((w b : ℕ) → count w b ≤ w)
    → (a : Value) → Yields (count_bits op count a)
unfolding count_bits
count_bits-Yields op count h (int x) = fits (count-InRange w32 _ (h 32 _))
count_bits-Yields op count h (int64 x) = fits (count-InRange w64 _ (h 64 _))
count_bits-Yields op count h _ = failed

bit_not-Yields : (a : Value) → IsInput a → Yields (bit_not a)
unfolding bit_not
bit_not-Yields (int x) h = fits (not-InRange w32 (as_i32 x) (wrap-InRange w32 x))
bit_not-Yields (int64 x) h = fits (not-InRange w64 x h)
bit_not-Yields _ h = failed

not_op-Yields : (a : Value) → Yields (not_op a)
unfolding not_op
not_op-Yields (bool x) = fits tt
not_op-Yields _ = failed

abbrev AllYield : Option (Value → Value → Outcome) → Type 0
AllYield none = Unit
AllYield (some f) = (a b : Value) → IsInput a → IsInput b → Yields (f a b)

binary-AllYield : (F : FloatOps) (op : OpCode) → AllYield (binary F op)
unfolding binary checked_add checked_sub checked_mul
binary-AllYield F OpCode.add = λ a b _ _. add-Yields F a b
binary-AllYield F OpCode.sub = λ a b _ _. sub-Yields F a b
binary-AllYield F OpCode.mul = λ a b _ _. mul-Yields F a b
binary-AllYield F OpCode.div = λ a b h _. div-Yields F a b h
binary-AllYield F OpCode.modulo = modulo-Yields
binary-AllYield F OpCode.div_u = λ a b _ _. div_u-Yields a b
binary-AllYield F OpCode.rem_u = λ a b _ _. rem_u-Yields a b
binary-AllYield F OpCode.bit_xor = λ a b _ _. bit_xor-Yields a b
binary-AllYield F OpCode.shl = λ a b _ _. shl-Yields a b
binary-AllYield F OpCode.shr = λ a b h _. shr-Yields a b h
binary-AllYield F OpCode.shr_u = λ a b _ _. shr_u-Yields a b
binary-AllYield F OpCode.bit_and = λ a b _ _. bit_and-Yields a b
binary-AllYield F OpCode.bit_or = λ a b _ _. bit_or-Yields a b
binary-AllYield F OpCode.rotl = λ a b _ _. rotate-Yields true a b
binary-AllYield F OpCode.rotr = λ a b _ _. rotate-Yields false a b
binary-AllYield F OpCode.lt = λ a b _ _. lt-Yields F a b
binary-AllYield F OpCode.lte = λ a b _ _. lte-Yields F a b
binary-AllYield F OpCode.gt = λ a b _ _. gt-Yields F a b
binary-AllYield F OpCode.gte = λ a b _ _. gte-Yields F a b
binary-AllYield F OpCode.checked_add = λ a b _ _. checked_op-Yields OpCode.checked_add ◌+ℤ◌ a b
binary-AllYield F OpCode.checked_sub = λ a b _ _. checked_op-Yields OpCode.checked_sub ◌-ℤ◌ a b
binary-AllYield F OpCode.checked_mul = λ a b _ _. checked_op-Yields OpCode.checked_mul ◌*ℤ◌ a b
binary-AllYield F OpCode.lt_u = λ a b _ _. compare_u-Yields OpCode.lt_u _ a b
binary-AllYield F OpCode.lte_u = λ a b _ _. compare_u-Yields OpCode.lte_u _ a b
binary-AllYield F OpCode.gt_u = λ a b _ _. compare_u-Yields OpCode.gt_u _ a b
binary-AllYield F OpCode.gte_u = λ a b _ _. compare_u-Yields OpCode.gte_u _ a b
binary-AllYield F _ = tt

Yields-ok : {o : Outcome} {r : Value} → Yields o → o ≡ ok r → Fits r
Yields-ok (fits h) e = subst Fits (cc) h
Yields-ok failed e = cc

-- Whatever the i64 that an `Int` operand holds, an integer that a binary operator returns is in the
-- range of its type, i32 or i64.
pub binary-Fits :
    (F : FloatOps) (op : OpCode) (f : Value → Value → Outcome) (a b r : Value)
    → binary F op ≡ some f
    → IsInput a
    → IsInput b
    → f a b ≡ ok r
    → Fits r
binary-Fits F op f a b r found h k e =
    let all = subst AllYield found (binary-AllYield F op) in Yields-ok (all a b h k) e

abbrev AllYield1 : Option (Value → Outcome) → Type 0
AllYield1 none = Unit
AllYield1 (some f) = (a : Value) → IsInput a → Yields (f a)

unary-AllYield : (op : OpCode) → AllYield1 (unary op)
unfolding unary
unary-AllYield OpCode.bit_not = bit_not-Yields
unary-AllYield OpCode.clz = λ a _. count_bits-Yields OpCode.clz leading_zeros leading_zeros-le a
unary-AllYield OpCode.ctz = λ a _. count_bits-Yields OpCode.ctz trailing_zeros trailing_zeros-le a
unary-AllYield OpCode.popcnt = λ a _. count_bits-Yields OpCode.popcnt count_ones count_ones-le a
unary-AllYield OpCode.not_op = λ a _. not_op-Yields a
unary-AllYield _ = tt

-- Whatever the i64 that an `Int` operand holds, an integer that a unary operator returns is in the range
-- of its type, i32 or i64.
pub unary-Fits :
    (op : OpCode) (f : Value → Outcome) (a r : Value)
    → unary op ≡ some f
    → IsInput a
    → f a ≡ ok r
    → Fits r
unary-Fits op f a r found h e = Yields-ok (subst AllYield1 found (unary-AllYield op) a h) e
