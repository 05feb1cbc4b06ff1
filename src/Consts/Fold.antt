-- ===== src/Consts/Fold.antt =====
-- `Val` and `fold` of src/consts.rs: an operator of a constant expression on folded values. Each message
-- is a constructor of `FoldError`.
use aipl.Base.{
  ℕ, ◌%◌, ◌==◌, ℤ, pos, String, str_eq, Bool, true, false, ◌&&◌, ◌||◌, not, Option, none, some,
  List, [], ◌∷◌, length, Result, ok, err, ◌>>=◌, ◌>>◌, fail_if, ok_or, if◌then◌else◌,
}
use aipl.Ast.Op.{OpCode}
use aipl.Word.{
  to_bits, from_bits, wrap, is_zero, eq_ℤ, min_value, minus_one, wrapping_add, wrapping_sub,
  wrapping_mul, quot, rem, wrapping_shl, wrapping_shr, unsigned_shr, rotate_left, rotate_right,
  and_ℤ, or_ℤ, xor_ℤ, not_ℤ, leading_zeros, trailing_zeros, count_ones,
}
use aipl.Vm.Value.{FloatOps}

-- A folded value.
pub data Val : Type 0 where
  i32 : ℤ → Val
  i64 : ℤ → Val
  f64 : ℕ → Val
  bool : Bool → Val

abbrev pub ty : Val → String
ty (i32 _) = "i32"
ty (i64 _) = "i64"
ty (f64 _) = "f64"
ty (bool _) = "bool"

pub data FoldError : Type 0 where
  unknown_op : String → FoldError
  wrong_count : String → ℕ → ℕ → FoldError
  does_not_apply : String → Val → FoldError
  needs_one_type : String → Val → Val → FoldError
  by_zero : String → FoldError
  overflows : FoldError

-- The operators of a constant expression, as they are written.
unfoldable pub fold_op : String → Option OpCode
fold_op op =
    if str_eq op "+"
    then some OpCode.add
    else if str_eq op "-"
    then some OpCode.sub
    else if str_eq op "*"
    then some OpCode.mul
    else if str_eq op "/"
    then some OpCode.div
    else if str_eq op "%"
    then some OpCode.modulo
    else if str_eq op "^"
    then some OpCode.bit_xor
    else if str_eq op "shl"
    then some OpCode.shl
    else if str_eq op "shr"
    then some OpCode.shr
    else if str_eq op "shru"
    then some OpCode.shr_u
    else if str_eq op "rotl"
    then some OpCode.rotl
    else if str_eq op "rotr"
    then some OpCode.rotr
    else if str_eq op "bitand"
    then some OpCode.bit_and
    else if str_eq op "bitor"
    then some OpCode.bit_or
    else if str_eq op "bitnot"
    then some OpCode.bit_not
    else if str_eq op "clz"
    then some OpCode.clz
    else if str_eq op "ctz"
    then some OpCode.ctz
    else if str_eq op "popcnt"
    then some OpCode.popcnt
    else if str_eq op "and"
    then some OpCode.and_op
    else if str_eq op "or"
    then some OpCode.or_op
    else if str_eq op "not"
    then some OpCode.not_op
    else none

-- The operators of one operand: `not` and the `unary_int`s.
abbrev pub takes_one : OpCode → Bool
takes_one OpCode.not_op = true
takes_one OpCode.bit_not = true
takes_one OpCode.clz = true
takes_one OpCode.ctz = true
takes_one OpCode.popcnt = true
takes_one _ = false

-- A unary operator on an i32 or i64, of width w.
unfoldable pub unary_int : ℕ → OpCode → ℤ → ℤ
unary_int w OpCode.bit_not x = not_ℤ x
unary_int w OpCode.clz x = pos (leading_zeros w (to_bits w x))
unary_int w OpCode.ctz x = pos (trailing_zeros w (to_bits w x))
unary_int w _ x = pos (count_ones w (to_bits w x))

unfoldable pub fold_one : String → OpCode → Val → Result FoldError Val
fold_one op OpCode.not_op (bool b) = ok (bool (not b))
fold_one op OpCode.not_op v = err (does_not_apply op v)
fold_one op o (i32 x) = ok (i32 (unary_int 32 o x))
fold_one op o (i64 x) = ok (i64 (unary_int 64 o x))
fold_one op o v = err (does_not_apply op v)

-- The arms of two i32s and of two i64s, which differ in the width. `bad` is the message of an operator
-- that does not apply.
unfoldable pub fold_int : ℕ → String → FoldError → OpCode → ℤ → ℤ → Result FoldError ℤ
fold_int w op bad OpCode.add x y = ok (wrapping_add w x y)
fold_int w op bad OpCode.sub x y = ok (wrapping_sub w x y)
fold_int w op bad OpCode.mul x y = ok (wrapping_mul w x y)
fold_int w op bad OpCode.div x y =
    if is_zero y
    then err (by_zero op)
    else if eq_ℤ x (min_value w) && eq_ℤ y minus_one
    then err overflows
    else ok (quot x y)
fold_int w op bad OpCode.modulo x y = if is_zero y then err (by_zero op) else ok (rem x y)
fold_int w op bad OpCode.bit_xor x y = ok (xor_ℤ w x y)
fold_int w op bad OpCode.shl x y = ok (wrapping_shl w x (to_bits 32 y))
fold_int w op bad OpCode.shr x y = ok (wrapping_shr w x (to_bits 32 y))
fold_int w op bad OpCode.shr_u x y = ok (from_bits w (unsigned_shr w x (to_bits 32 y)))
fold_int w op bad OpCode.rotl x y =
    ok (wrap w (pos (rotate_left w (to_bits w x) (to_bits 32 y % w))))
fold_int w op bad OpCode.rotr x y =
    ok (wrap w (pos (rotate_right w (to_bits w x) (to_bits 32 y % w))))
fold_int w op bad OpCode.bit_and x y = ok (and_ℤ w x y)
fold_int w op bad OpCode.bit_or x y = ok (or_ℤ w x y)
fold_int w op bad _ x y = err bad

unfoldable pub fold_f64 : FloatOps → FoldError → OpCode → ℕ → ℕ → Result FoldError ℕ
fold_f64 F bad OpCode.add x y = ok (F.add64 x y)
fold_f64 F bad OpCode.sub x y = ok (F.sub64 x y)
fold_f64 F bad OpCode.mul x y = ok (F.mul64 x y)
fold_f64 F bad OpCode.div x y = ok (F.div64 x y)
fold_f64 F bad _ x y = err bad

unfoldable pub fold_bool : FoldError → OpCode → Bool → Bool → Result FoldError Bool
fold_bool bad OpCode.and_op x y = ok (x && y)
fold_bool bad OpCode.or_op x y = ok (x || y)
fold_bool bad _ x y = err bad

abbrev pub tag {ℓ} : {A : Type ℓ} → (A → Val) → Result FoldError A → Result FoldError Val
tag f r = r >>= λ a. ok (f a)

unfoldable pub fold_two : FloatOps → String → OpCode → Val → Val → Result FoldError Val
fold_two F op o (i32 x) (i32 y) = tag i32 (fold_int 32 op (does_not_apply op (i32 x)) o x y)
fold_two F op o (i64 x) (i64 y) = tag i64 (fold_int 64 op (does_not_apply op (i64 x)) o x y)
fold_two F op o (f64 x) (f64 y) = tag f64 (fold_f64 F (does_not_apply op (f64 x)) o x y)
fold_two F op o (bool x) (bool y) = tag bool (fold_bool (does_not_apply op (bool x)) o x y)
fold_two F op o a b = err (needs_one_type op a b)

abbrev pub want : OpCode → ℕ
want o = if takes_one o then 1 else 2

-- The operands, counted already.
unfoldable pub fold_args : FloatOps → String → OpCode → List Val → Result FoldError Val
fold_args F op o (a ∷ []) = fold_one op o a
fold_args F op o (a ∷ b ∷ []) = fold_two F op o a b
fold_args F op o args = err (wrong_count op (want o) (length args))

unfoldable pub fold : FloatOps → String → List Val → Result FoldError Val
unfolding fold_op
fold F op args = do
  o ← ok_or (fold_op op) (unknown_op op)
  fail_if (not (length args == want o)) (wrong_count op (want o) (length args))
  fold_args F op o args
