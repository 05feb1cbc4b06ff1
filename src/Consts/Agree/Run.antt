-- ===== src/Consts/Agree/Run.antt =====
-- `fold` of src/consts.rs and the operators of src/vm.rs, side by side.
use aipl.Base.{String, true, ◌≡◌, [], ◌∷◌}
use aipl.Ast.Op.{OpCode, op_name}
use aipl.Vm.Value.{FloatOps}
use aipl.Consts.Fold.{Val, fold_two, fold, takes_one}
use aipl.Consts.Agree.Defs.{embed, ValFits, Agrees, SameType, folds_two, run_two, run_one}
use aipl.Consts.Agree.Arith.{add-Agrees, sub-Agrees, mul-Agrees, div-Agrees, modulo-Agrees}
use aipl.Consts.Agree.Bits.{
  bit_xor-Agrees, bit_and-Agrees, bit_or-Agrees, shl-Agrees, shr-Agrees, shr_u-Agrees, rotl-Agrees,
  rotr-Agrees,
}
use aipl.Consts.Agree.Logic.{and-Agrees, or-Agrees, one-Agrees}
use aipl.Consts.Agree.Names.{fold-two, fold-one}

module _ (F : FloatOps) (op : String) where
  two-Agrees :
      (o : OpCode) (a b : Val)
      → folds_two o ≡ true
      → ValFits a
      → ValFits b
      → SameType a b
      → Agrees (fold_two F op o a b) (run_two F o (embed a) (embed b))
  two-Agrees OpCode.add a b t h k e = add-Agrees F op a b h k
  two-Agrees OpCode.sub a b t h k e = sub-Agrees F op a b h k
  two-Agrees OpCode.mul a b t h k e = mul-Agrees F op a b h k
  two-Agrees OpCode.div a b t h k e = div-Agrees F op a b h k
  two-Agrees OpCode.modulo a b t h k e = modulo-Agrees F op a b h k
  two-Agrees OpCode.bit_xor a b t h k e = bit_xor-Agrees F op a b h k
  two-Agrees OpCode.bit_and a b t h k e = bit_and-Agrees F op a b h k
  two-Agrees OpCode.bit_or a b t h k e = bit_or-Agrees F op a b h k
  two-Agrees OpCode.shl a b t h k e = shl-Agrees F op a b h k
  two-Agrees OpCode.shr a b t h k e = shr-Agrees F op a b h k
  two-Agrees OpCode.shr_u a b t h k e = shr_u-Agrees F op a b h k
  two-Agrees OpCode.rotl a b t h k e = rotl-Agrees F op a b h k
  two-Agrees OpCode.rotr a b t h k e = rotr-Agrees F op a b h k
  two-Agrees OpCode.and_op a b t h k e = and-Agrees F op a b e
  two-Agrees OpCode.or_op a b t h k e = or-Agrees F op a b e
  two-Agrees _ a b t h k e = cc

-- Folding an operator of two operands of one type and in range gives what the machine computes on them,
-- and is an error exactly where the machine fails.
pub fold-run_two :
    (F : FloatOps) (o : OpCode) (a b : Val)
    → folds_two o ≡ true
    → ValFits a
    → ValFits b
    → SameType a b
    → Agrees (fold F (op_name o) (a ∷ b ∷ [])) (run_two F o (embed a) (embed b))
fold-run_two F o a b t h k e = rw (fold-two F o a b t) (two-Agrees F (op_name o) o a b t h k e)

-- Folding an operator of one operand, in range, gives what the machine computes on it, and is an error
-- exactly where the machine fails.
pub fold-run_one :
    (F : FloatOps) (o : OpCode) (a : Val)
    → takes_one o ≡ true
    → ValFits a
    → Agrees (fold F (op_name o) (a ∷ [])) (run_one o (embed a))
fold-run_one F o a t h = rw (fold-one F o a t) (one-Agrees (op_name o) o a t h)
