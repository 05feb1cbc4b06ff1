-- ===== src/Typing/Sound.antt =====
-- The rules of src/checker.rs for the operators and the arms of src/vm.rs that run them.
use aipl.Base.{Bool, ◌&&◌, true, false, Option, some, [], ◌∷◌, ok, ◌≡◌}
use aipl.Ast.Expr.{AiplType}
use aipl.Ast.Op
use aipl.Ast.Op.{OpCode}
use aipl.Vm.Value.{Value}
use aipl.Vm.Arith.{Outcome}
use aipl.Typing.Operators.{Rule}
use aipl.Typing.Accepts.{is_outcome}
use aipl.Typing.Runs.{HasType, Runs}

-- The comparisons of signed numbers and floats.
abbrev pub is_order : OpCode → Bool
is_order Op.lt = true
is_order Op.lte = true
is_order Op.gt = true
is_order Op.gte = true
is_order op = false

abbrev Sound : Bool → Rule → (Value → Value → Outcome) → Type 0
Sound order rule f =
    (t1 t2 t : AiplType) (a b : Value)
    → (order && is_outcome t1) ≡ false
    → rule (t1 ∷ t2 ∷ []) ≡ ok t
    → HasType t1 a
    → HasType t2 b
    → Runs t (f a b)

-- What is to be shown of an operator that has both a rule and an arm.
abbrev Agrees : Bool → Option Rule → Option (Value → Value → Outcome) → Type 0
Agrees order (some rule) (some f) = Sound order rule f
Agrees order _ _ = Unit
