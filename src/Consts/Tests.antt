-- ===== src/Consts/Tests.antt =====
-- Folding at concrete operands, and instances of the theorems.
use aipl.Word.{wrapping_add}
use aipl.Ast.Op.{op_name}
use aipl.Base.{◌≡◌, refl, pos, negsuc, ok, err, [], ◌∷◌, arith, false, ◌+ℤ◌}
use aipl.Ast.Op
use aipl.Vm.Value.{int, FloatOps}
use aipl.Consts.Fold.{i32, i64, fold, unknown_op, by_zero, overflows, fold_args, fold_two, fold_int}
use aipl.Consts.Agree.Defs.{Agrees, run_two, run_one}
use aipl.Consts.Agree.Run.{fold-run_two, fold-run_one}

-- A stand-in for the hardware's float arithmetic.
abbrev no_floats : FloatOps
no_floats = record {
  add64 = λ a b. 0;
  sub64 = λ a b. 0;
  mul64 = λ a b. 0;
  div64 = λ a b. 0;
  lt64 = λ a b. false;
  le64 = λ a b. false;
  add32 = λ a b. 0;
  sub32 = λ a b. 0;
  mul32 = λ a b. 0;
  div32 = λ a b. 0;
  lt32 = λ a b. false;
  le32 = λ a b. false;
}

wraps : fold no_floats "+" (i32 (pos 2147483647) ∷ i32 (pos 1) ∷ []) ≡ ok (i32 (negsuc 2147483647))
unfolding fold fold_args fold_two fold_int wrapping_add ◌+ℤ◌
wraps = refl

divides_by_zero : fold no_floats "%" (i64 (pos 5) ∷ i64 (pos 0) ∷ []) ≡ err (by_zero "%")
unfolding fold fold_args fold_two fold_int
divides_by_zero = refl

smallest_by_minus_one :
    fold no_floats "/" (i32 (negsuc 2147483647) ∷ i32 (negsuc 0) ∷ []) ≡ err overflows
unfolding fold fold_args fold_two fold_int
smallest_by_minus_one = refl

not_an_operator : fold no_floats "lt" [] ≡ err (unknown_op "lt")
unfolding fold
not_an_operator = refl

fold-run_two_example :
    Agrees
      (fold no_floats "shl" (i32 (pos 3) ∷ i32 (pos 33) ∷ []))
      (run_two no_floats Op.shl (int (pos 3)) (int (pos 33)))
unfolding op_name
fold-run_two_example =
    fold-run_two no_floats Op.shl (i32 (pos 3)) (i32 (pos 33)) refl (omega arith) (omega arith) tt

fold-run_one_example :
    Agrees (fold no_floats "clz" (i32 (negsuc 4) ∷ [])) (run_one Op.clz (int (negsuc 4)))
unfolding op_name
fold-run_one_example = fold-run_one no_floats Op.clz (i32 (negsuc 4)) refl (omega arith)
