-- ===== src/Vm/Tests.antt =====
-- Operators at concrete operands, and instances of the theorems.
use aipl.Word.{wrapping_add, not_ℤ}
use aipl.Base.{◌≡◌, refl, pos, negsuc, ok, false, ◌+ℤ◌}
use aipl.Ast.Op
use aipl.Vm.Value.{int, FloatOps}
use aipl.Vm.Arith.{binary, unary, add, bit_not}
use aipl.Vm.Arith.InRange.{Fits, binary-Fits, unary-Fits}

abbrev pub no_floats : FloatOps
no_floats = record {
  add64 = λ a b. 0;
  sub64 = λ a b. 0;
  mul64 = λ a b. 0;
  div64 = λ a b. 0;
  lt64 = λ a b. false;
  le64 = λ a b. false;
  add32 = λ a b. 0;
  sub32 = λ a b. 0;
  mul32 = λ a b. 0;
  div32 = λ a b. 0;
  lt32 = λ a b. false;
  le32 = λ a b. false;
}

-- An `Int` that holds more than 32 bits is truncated first.
truncates : add no_floats (int (pos 4294967298)) (int (pos 1)) ≡ ok (int (pos 3))
unfolding add wrapping_add ◌+ℤ◌
truncates = refl

binary-Fits_example : Fits (int (pos 3))
unfolding binary
binary-Fits_example =
    binary-Fits no_floats Op.add (add no_floats) (int (pos 4294967298)) (int (pos 1)) (int (pos 3))
      refl tt tt truncates

unary-Fits_example : Fits (int (negsuc 7))
unfolding unary bit_not not_ℤ
unary-Fits_example = unary-Fits Op.bit_not bit_not (int (pos 7)) (int (negsuc 7)) refl tt refl
