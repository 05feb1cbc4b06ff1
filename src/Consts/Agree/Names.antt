-- ===== src/Consts/Agree/Names.antt =====
-- Operators by their written names.
use aipl.Base.{true, ◌≡◌, refl, ◌||◌, some, [], ◌∷◌}
use aipl.Ast.Op.{OpCode, op_name}
use aipl.Vm.Value.{FloatOps}
use aipl.Consts.Fold.{Val, fold_op, fold_one, fold_two, fold_args, fold, takes_one}
use aipl.Consts.Agree.Defs.{folds_two}

pub fold_op-op_name :
    (o : OpCode) → (folds_two o || takes_one o) ≡ true → fold_op (op_name o) ≡ some o
unfolding fold_op op_name
fold_op-op_name OpCode.add h = refl
fold_op-op_name OpCode.sub h = refl
fold_op-op_name OpCode.mul h = refl
fold_op-op_name OpCode.div h = refl
fold_op-op_name OpCode.modulo h = refl
fold_op-op_name OpCode.bit_xor h = refl
fold_op-op_name OpCode.bit_and h = refl
fold_op-op_name OpCode.bit_or h = refl
fold_op-op_name OpCode.shl h = refl
fold_op-op_name OpCode.shr h = refl
fold_op-op_name OpCode.shr_u h = refl
fold_op-op_name OpCode.rotl h = refl
fold_op-op_name OpCode.rotr h = refl
fold_op-op_name OpCode.and_op h = refl
fold_op-op_name OpCode.or_op h = refl
fold_op-op_name OpCode.bit_not h = refl
fold_op-op_name OpCode.clz h = refl
fold_op-op_name OpCode.ctz h = refl
fold_op-op_name OpCode.popcnt h = refl
fold_op-op_name OpCode.not_op h = refl
fold_op-op_name _ h = cc

pub fold-two :
    (F : FloatOps) (o : OpCode) (a b : Val)
    → folds_two o ≡ true
    → fold F (op_name o) (a ∷ b ∷ []) ≡ fold_two F (op_name o) o a b
unfolding fold fold_args
fold-two F OpCode.add a b h = rw (fold_op-op_name OpCode.add refl)
fold-two F OpCode.sub a b h = rw (fold_op-op_name OpCode.sub refl)
fold-two F OpCode.mul a b h = rw (fold_op-op_name OpCode.mul refl)
fold-two F OpCode.div a b h = rw (fold_op-op_name OpCode.div refl)
fold-two F OpCode.modulo a b h = rw (fold_op-op_name OpCode.modulo refl)
fold-two F OpCode.bit_xor a b h = rw (fold_op-op_name OpCode.bit_xor refl)
fold-two F OpCode.bit_and a b h = rw (fold_op-op_name OpCode.bit_and refl)
fold-two F OpCode.bit_or a b h = rw (fold_op-op_name OpCode.bit_or refl)
fold-two F OpCode.shl a b h = rw (fold_op-op_name OpCode.shl refl)
fold-two F OpCode.shr a b h = rw (fold_op-op_name OpCode.shr refl)
fold-two F OpCode.shr_u a b h = rw (fold_op-op_name OpCode.shr_u refl)
fold-two F OpCode.rotl a b h = rw (fold_op-op_name OpCode.rotl refl)
fold-two F OpCode.rotr a b h = rw (fold_op-op_name OpCode.rotr refl)
fold-two F OpCode.and_op a b h = rw (fold_op-op_name OpCode.and_op refl)
fold-two F OpCode.or_op a b h = rw (fold_op-op_name OpCode.or_op refl)
fold-two F _ a b h = cc

pub fold-one :
    (F : FloatOps) (o : OpCode) (a : Val)
    → takes_one o ≡ true
    → fold F (op_name o) (a ∷ []) ≡ fold_one (op_name o) o a
unfolding fold fold_args
fold-one F OpCode.bit_not a h = rw (fold_op-op_name OpCode.bit_not refl)
fold-one F OpCode.clz a h = rw (fold_op-op_name OpCode.clz refl)
fold-one F OpCode.ctz a h = rw (fold_op-op_name OpCode.ctz refl)
fold-one F OpCode.popcnt a h = rw (fold_op-op_name OpCode.popcnt refl)
fold-one F OpCode.not_op a h = rw (fold_op-op_name OpCode.not_op refl)
fold-one F _ a h = cc
