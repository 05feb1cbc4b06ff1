-- ===== src/Consts/Agree/Defs.antt =====
-- What it is for the constant folder to agree with the virtual machine.
use aipl.Base.{Bool, true, false, ◌≡◌, none, some, Result, ok, err}
use aipl.Ast.Op.{OpCode}
use aipl.Word.{InRange}
use aipl.Vm.Value.{Value, FloatOps, VmError, invalid_types}
use aipl.Vm.Arith.{Outcome, binary, and_or, unary}
use aipl.Consts.Fold.{Val, i32, i64, f64, bool, FoldError}

-- A folded value as the machine has it.
abbrev pub embed : Val → Value
embed (i32 x) = Value.int x
embed (i64 x) = Value.int64 x
embed (f64 x) = Value.float x
embed (bool b) = Value.bool b

-- An i32 or i64 is in the range of its type.
abbrev pub ValFits : Val → Type 0
ValFits (i32 x) = InRange 32 x
ValFits (i64 x) = InRange 64 x
ValFits _ = Unit

-- The folder and the machine both fail, or both give the same value.
abbrev pub Agrees : Result FoldError Val → Outcome → Type 0
Agrees (ok v) r = r ≡ ok (embed v)
Agrees (err _) r = (e : VmError) × (r ≡ err e)

-- The operands have one type, as the checker demands of a program.
abbrev pub SameType : Val → Val → Type 0
SameType (i32 _) (i32 _) = Unit
SameType (i64 _) (i64 _) = Unit
SameType (f64 _) (f64 _) = Unit
SameType (bool _) (bool _) = Unit
SameType _ _ = ⊥

-- The operators of two operands that the folder knows.
abbrev pub folds_two : OpCode → Bool
folds_two OpCode.add = true
folds_two OpCode.sub = true
folds_two OpCode.mul = true
folds_two OpCode.div = true
folds_two OpCode.modulo = true
folds_two OpCode.bit_xor = true
folds_two OpCode.bit_and = true
folds_two OpCode.bit_or = true
folds_two OpCode.shl = true
folds_two OpCode.shr = true
folds_two OpCode.shr_u = true
folds_two OpCode.rotl = true
folds_two OpCode.rotr = true
folds_two OpCode.and_op = true
folds_two OpCode.or_op = true
folds_two _ = false

-- What the machine makes of an operator on two values, `and` and `or` included.
unfoldable pub run_two : FloatOps → OpCode → Value → Value → Outcome
run_two F OpCode.and_op a b = and_or OpCode.and_op false a (ok b)
run_two F OpCode.or_op a b = and_or OpCode.or_op true a (ok b)
run_two F o a b = elim (binary F o) [ some f ↦ f a b | none ↦ err (invalid_types o) ]

-- What the machine makes of an operator on one value.
unfoldable pub run_one : OpCode → Value → Outcome
run_one o a = elim (unary o) [ some f ↦ f a | none ↦ err (invalid_types o) ]
