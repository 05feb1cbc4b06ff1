-- ===== src/Typing/Tests.antt =====
-- Rules of operators at concrete types, and an instance of the theorem.
use aipl.Base.{◌≡◌, refl, pos, [], ◌∷◌, ok, err}
use aipl.Ast.Expr.{i32, f64, bool, str, result_type}
use aipl.Ast.Op
use aipl.Ast.TypeEq.{type_eq}
use aipl.Vm.Value.{ok_of, int, invalid_types}
use aipl.Vm.Arith.{add, lt}
use aipl.Vm.Tests.{no_floats}
use aipl.Typing.Kinds.{sealed, meet}
use aipl.Typing.Operators.{arithmetic_rule, comparison_rule, binary_mismatch}
use aipl.Typing.Runs.{Runs}

mismatch : arithmetic_rule Op.add (i32 ∷ f64 ∷ []) ≡ err (binary_mismatch i32 f64)
unfolding arithmetic_rule sealed type_eq
mismatch = refl

-- Two results are ordered by the checker and not by the machine.
results_ordered : comparison_rule Op.lt (result_type i32 str ∷ result_type i32 str ∷ []) ≡ ok bool
unfolding comparison_rule sealed meet type_eq
results_ordered = refl

results_fail : lt no_floats (ok_of (int (pos 1))) (ok_of (int (pos 2))) ≡ err (invalid_types Op.lt)
unfolding lt
results_fail = refl
