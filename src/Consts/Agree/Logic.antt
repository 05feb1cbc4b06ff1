-- ===== src/Consts/Agree/Logic.antt =====
-- `and`, `or` and the operators of one operand of src/consts.rs and src/vm.rs, side by side.
use aipl.Base.{String, true, false, ◌≡◌, refl}
use aipl.Ast.Op.{OpCode}
use aipl.Word.Range.{w32, wrap_id}
use aipl.Vm.Value.{FloatOps, invalid_types}
use aipl.Vm.Arith.{and_or, unary, bit_not, count_bits, not_op}
use aipl.Consts.Fold.{
  Val, i32, i64, f64, bool, fold_one, fold_int, fold_two, fold_f64, fold_bool, takes_one, unary_int,
}
use aipl.Consts.Agree.Defs.{embed, ValFits, Agrees, SameType, run_two, run_one}

module _ (F : FloatOps) (op : String) where
  pub and-Agrees :
      (a b : Val)
      → SameType a b
      → Agrees (fold_two F op OpCode.and_op a b) (run_two F OpCode.and_op (embed a) (embed b))
  unfolding fold_two fold_int fold_f64 fold_bool run_two and_or
  and-Agrees (bool true) (bool y) h = refl
  and-Agrees (bool false) (bool y) h = refl
  and-Agrees (i32 x) (i32 y) h = (invalid_types OpCode.and_op, refl)
  and-Agrees (i64 x) (i64 y) h = (invalid_types OpCode.and_op, refl)
  and-Agrees (f64 x) (f64 y) h = (invalid_types OpCode.and_op, refl)
  and-Agrees (bool true) (i32 y) h = absurd h
  and-Agrees (bool false) (i32 y) h = absurd h
  and-Agrees _ _ h = absurd h

  pub or-Agrees :
      (a b : Val)
      → SameType a b
      → Agrees (fold_two F op OpCode.or_op a b) (run_two F OpCode.or_op (embed a) (embed b))
  unfolding fold_two fold_int fold_f64 fold_bool run_two and_or
  or-Agrees (bool true) (bool y) h = refl
  or-Agrees (bool false) (bool y) h = refl
  or-Agrees (i32 x) (i32 y) h = (invalid_types OpCode.or_op, refl)
  or-Agrees (i64 x) (i64 y) h = (invalid_types OpCode.or_op, refl)
  or-Agrees (f64 x) (f64 y) h = (invalid_types OpCode.or_op, refl)
  or-Agrees (bool true) (i32 y) h = absurd h
  or-Agrees (bool false) (i32 y) h = absurd h
  or-Agrees _ _ h = absurd h

pub one-Agrees :
    (op : String) (o : OpCode) (a : Val)
    → takes_one o ≡ true
    → ValFits a
    → Agrees (fold_one op o a) (run_one o (embed a))
unfolding fold_one unary_int run_one unary bit_not count_bits not_op
one-Agrees op OpCode.bit_not (i32 x) t h = rw (wrap_id w32 x h)
one-Agrees op OpCode.bit_not (i64 x) t h = refl
one-Agrees op OpCode.bit_not _ t h = (invalid_types OpCode.bit_not, refl)
one-Agrees op OpCode.clz (i32 x) t h = rw (wrap_id w32 x h)
one-Agrees op OpCode.clz (i64 x) t h = refl
one-Agrees op OpCode.clz _ t h = (invalid_types OpCode.clz, refl)
one-Agrees op OpCode.ctz (i32 x) t h = rw (wrap_id w32 x h)
one-Agrees op OpCode.ctz (i64 x) t h = refl
one-Agrees op OpCode.ctz _ t h = (invalid_types OpCode.ctz, refl)
one-Agrees op OpCode.popcnt (i32 x) t h = rw (wrap_id w32 x h)
one-Agrees op OpCode.popcnt (i64 x) t h = refl
one-Agrees op OpCode.popcnt _ t h = (invalid_types OpCode.popcnt, refl)
one-Agrees op OpCode.not_op (bool x) t h = refl
one-Agrees op OpCode.not_op _ t h = (invalid_types OpCode.not_op, refl)
one-Agrees op _ a t h = cc
