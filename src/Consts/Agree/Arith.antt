-- ===== src/Consts/Agree/Arith.antt =====
-- `+ - * / %` of src/consts.rs and src/vm.rs, side by side.
use aipl.Base.{
  ℤ, pos, String, Bool, true, false, ◌≡◌, refl, ◌&&◌, ok, err, arith, if◌then◌else◌, negsuc,
}
use aipl.Base.Tests.{&&-split}
use aipl.Ast.Op.{OpCode}
use aipl.Word.{is_zero, eq_ℤ, min_value, minus_one, quot, rem}
use aipl.Word.Range.{Width, w32, w64, bits, wrap_id, rem_min}
use aipl.Vm.Value
use aipl.Vm.Value.{Value, FloatOps, VmError, invalid_types}
use aipl.Vm.Arith.{binary, add, sub, mul, div, modulo}
use aipl.Consts.Fold.{
  Val, i32, i64, f64, bool, fold_int, fold_two, fold_f64, fold_bool, tag, by_zero, overflows,
}
use aipl.Consts.Agree.Defs.{embed, ValFits, Agrees, run_two}

-- Both divisions test alike; `rem` at the one pair that overflows is the 0 that the machine gives.
quotient-Agrees :
    (b c : Bool) (of : ℤ → Val) (op : String) (q : ℤ)
    → Agrees (tag of (if b then err (by_zero op) else if c then err overflows else ok q)) (
        if b
        then err Value.division_by_zero
        else if c
        then err Value.integer_overflow
        else ok (embed (of q)))
quotient-Agrees true c of op q = (Value.division_by_zero, refl)
quotient-Agrees false true of op q = (Value.integer_overflow, refl)
quotient-Agrees false false of op q = refl

remainder-Agrees :
    (b c : Bool) (of : ℤ → Val) (op : String) (r : ℤ)
    → (c ≡ true → r ≡ pos 0)
    → Agrees (tag of (if b then err (by_zero op) else ok r)) (
        if b
        then err Value.division_by_zero
        else if c
        then ok (embed (of (pos 0)))
        else ok (embed (of r)))
remainder-Agrees true c of op r h = (Value.division_by_zero, refl)
remainder-Agrees false true of op r h = rw (h refl)
remainder-Agrees false false of op r h = refl

eq_ℤ→eq : (x y : ℤ) → eq_ℤ x y ≡ true → x ≡ y
eq_ℤ→eq (pos n) (pos m) h = ground arith
eq_ℤ→eq (negsuc n) (negsuc m) h = ground arith
eq_ℤ→eq (pos n) (negsuc m) h = cc
eq_ℤ→eq (negsuc n) (pos m) h = cc

rem_overflow :
    (w : Width) (x y : ℤ)
    → (eq_ℤ x (min_value (bits w)) && eq_ℤ y minus_one) ≡ true
    → rem x y ≡ pos 0
rem_overflow w x y h =
    let (p, q) = &&-split (eq_ℤ x (min_value (bits w))) (eq_ℤ y minus_one) h in
    rw (eq_ℤ→eq x _ p, eq_ℤ→eq y _ q) (rem_min w)

module _ (F : FloatOps) (op : String) where
  pub add-Agrees :
      (a b : Val)
      → ValFits a
      → ValFits b
      → Agrees (fold_two F op OpCode.add a b) (run_two F OpCode.add (embed a) (embed b))
  unfolding fold_two fold_int fold_f64 fold_bool run_two binary add
  add-Agrees (i32 x) (i32 y) h k = rw (wrap_id w32 x h, wrap_id w32 y k)
  add-Agrees (i64 x) (i64 y) h k = refl
  add-Agrees (f64 x) (f64 y) h k = refl
  add-Agrees (bool x) (bool y) h k = (invalid_types OpCode.add, refl)
  add-Agrees _ _ h k = (invalid_types OpCode.add, refl)

  pub sub-Agrees :
      (a b : Val)
      → ValFits a
      → ValFits b
      → Agrees (fold_two F op OpCode.sub a b) (run_two F OpCode.sub (embed a) (embed b))
  unfolding fold_two fold_int fold_f64 fold_bool run_two binary sub
  sub-Agrees (i32 x) (i32 y) h k = rw (wrap_id w32 x h, wrap_id w32 y k)
  sub-Agrees (i64 x) (i64 y) h k = refl
  sub-Agrees (f64 x) (f64 y) h k = refl
  sub-Agrees (bool x) (bool y) h k = (invalid_types OpCode.sub, refl)
  sub-Agrees _ _ h k = (invalid_types OpCode.sub, refl)

  pub mul-Agrees :
      (a b : Val)
      → ValFits a
      → ValFits b
      → Agrees (fold_two F op OpCode.mul a b) (run_two F OpCode.mul (embed a) (embed b))
  unfolding fold_two fold_int fold_f64 fold_bool run_two binary mul
  mul-Agrees (i32 x) (i32 y) h k = rw (wrap_id w32 x h, wrap_id w32 y k)
  mul-Agrees (i64 x) (i64 y) h k = refl
  mul-Agrees (f64 x) (f64 y) h k = refl
  mul-Agrees (bool x) (bool y) h k = (invalid_types OpCode.mul, refl)
  mul-Agrees _ _ h k = (invalid_types OpCode.mul, refl)

  pub div-Agrees :
      (a b : Val)
      → ValFits a
      → ValFits b
      → Agrees (fold_two F op OpCode.div a b) (run_two F OpCode.div (embed a) (embed b))
  unfolding fold_two fold_int fold_f64 fold_bool run_two binary div
  div-Agrees (i32 x) (i32 y) h k =
      rw (wrap_id w32 x h, wrap_id w32 y k)
        (quotient-Agrees (is_zero y) (eq_ℤ x (min_value 32) && eq_ℤ y minus_one) i32 op (quot x y))
  div-Agrees (i64 x) (i64 y) h k =
      quotient-Agrees (is_zero y) (eq_ℤ x (min_value 64) && eq_ℤ y minus_one) i64 op (quot x y)
  div-Agrees (f64 x) (f64 y) h k = refl
  div-Agrees (bool x) (bool y) h k = (invalid_types OpCode.div, refl)
  div-Agrees _ _ h k = (invalid_types OpCode.div, refl)

  pub modulo-Agrees :
      (a b : Val)
      → ValFits a
      → ValFits b
      → Agrees (fold_two F op OpCode.modulo a b) (run_two F OpCode.modulo (embed a) (embed b))
  unfolding fold_two fold_int fold_f64 fold_bool run_two binary modulo
  modulo-Agrees (i32 x) (i32 y) h k =
      rw (wrap_id w32 x h, wrap_id w32 y k)
        (remainder-Agrees (is_zero y) (eq_ℤ x (min_value 32) && eq_ℤ y minus_one) i32 op (rem x y)
          (rem_overflow w32 x y))
  modulo-Agrees (i64 x) (i64 y) h k =
      remainder-Agrees (is_zero y) (eq_ℤ x (min_value 64) && eq_ℤ y minus_one) i64 op (rem x y)
        (rem_overflow w64 x y)
  modulo-Agrees (f64 x) (f64 y) h k = (invalid_types OpCode.modulo, refl)
  modulo-Agrees (bool x) (bool y) h k = (invalid_types OpCode.modulo, refl)
  modulo-Agrees _ _ h k = (invalid_types OpCode.modulo, refl)
