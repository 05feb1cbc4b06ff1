-- ===== src/Typing/Runs.antt =====
-- The operators of src/vm.rs on operands of one number type.
use aipl.Base.{ℕ, ℤ, String, Bool, true, false, Option, none, some, ok, err, if◌then◌else◌}
use aipl.Ast.Expr.{
  AiplType, Types, i32, i64, f32, f64, bool, str, void, ptr, array, fn, struct, enum, union,
  result_type,
}
use aipl.Ast.Op.{OpCode}
use aipl.Vm.Value.{
  Value, Values, record_of, ok_of, err_of, int, int64, float, float32, FloatOps, division_by_zero,
  integer_overflow, checked_overflow,
}
use aipl.Vm.Arith.{
  Outcome, add, sub, mul, div, modulo, div_u, rem_u, bit_xor, bit_and, bit_or, shl, shr, shr_u,
  rotate, lt, lte, gt, gte, checked_op, compare_u, checked_result,
}
use aipl.Typing.Accepts.{IsNumber, IsInteger}

-- The values of each type that a value may have. What a record or a variant holds is left open.
pub data HasType : AiplType → Value → Type 0 where
  an_i32 : {v : ℤ} → HasType i32 (int v)
  an_i64 : {v : ℤ} → HasType i64 (int64 v)
  an_f32 : {v : ℕ} → HasType f32 (float32 v)
  an_f64 : {v : ℕ} → HasType f64 (float v)
  a_bool : {b : Bool} → HasType bool (Value.bool b)
  a_str : {s : String} → HasType str (Value.str s)
  a_pointer : {t : AiplType} {v : ℤ} → HasType (ptr t) (int64 v)
  an_array : {t : AiplType} {v : ℤ} → HasType (array t) (int64 v)
  a_function : {ps : Types} {r : AiplType} {k : Bool} {v : ℤ} → HasType (fn ps r k) (int v)
  a_member : {n : String} {v : ℤ} → HasType (enum n) (int v)
  a_record : {n : String} {vs : Values} → HasType (struct n) (record_of vs)
  a_variant : {n : String} {tag : ℕ} {vs : Values} → HasType (union n) (Value.union tag vs)
  an_ok : {t e : AiplType} {v : Value} → HasType t v → HasType (result_type t e) (ok_of v)
  an_err : {t e : AiplType} {v : Value} → HasType e v → HasType (result_type t e) (err_of v)
  nothing : HasType void Value.void

-- A value of the type, or an error of the operands' values: not one of their types.
pub data Runs (t : AiplType) : Outcome → Type 0 where
  gives : {r : Value} → HasType t r → Runs t (ok r)
  divides_by_zero : Runs t (err division_by_zero)
  overflows : Runs t (err integer_overflow)
  exceeds : {op : OpCode} → Runs t (err (checked_overflow op))

Runs-if :
    {t : AiplType} (b : Bool) {x y : Outcome} → Runs t x → Runs t y → Runs t (if b then x else y)
Runs-if true p q = p
Runs-if false p q = q

module _ (F : FloatOps) where
  pub add-Runs :
      {t : AiplType} (a b : Value) → IsNumber t → HasType t a → HasType t b → Runs t (add F a b)
  unfolding add
  add-Runs _ _ IsNumber.of_i32 an_i32 an_i32 = gives an_i32
  add-Runs _ _ IsNumber.of_i64 an_i64 an_i64 = gives an_i64
  add-Runs _ _ IsNumber.of_f32 an_f32 an_f32 = gives an_f32
  add-Runs _ _ IsNumber.of_f64 an_f64 an_f64 = gives an_f64

  pub sub-Runs :
      {t : AiplType} (a b : Value) → IsNumber t → HasType t a → HasType t b → Runs t (sub F a b)
  unfolding sub
  sub-Runs _ _ IsNumber.of_i32 an_i32 an_i32 = gives an_i32
  sub-Runs _ _ IsNumber.of_i64 an_i64 an_i64 = gives an_i64
  sub-Runs _ _ IsNumber.of_f32 an_f32 an_f32 = gives an_f32
  sub-Runs _ _ IsNumber.of_f64 an_f64 an_f64 = gives an_f64

  pub mul-Runs :
      {t : AiplType} (a b : Value) → IsNumber t → HasType t a → HasType t b → Runs t (mul F a b)
  unfolding mul
  mul-Runs _ _ IsNumber.of_i32 an_i32 an_i32 = gives an_i32
  mul-Runs _ _ IsNumber.of_i64 an_i64 an_i64 = gives an_i64
  mul-Runs _ _ IsNumber.of_f32 an_f32 an_f32 = gives an_f32
  mul-Runs _ _ IsNumber.of_f64 an_f64 an_f64 = gives an_f64

  pub lt-Runs :
      {t : AiplType} (a b : Value) → IsNumber t → HasType t a → HasType t b → Runs bool (lt F a b)
  unfolding lt
  lt-Runs _ _ IsNumber.of_i32 an_i32 an_i32 = gives a_bool
  lt-Runs _ _ IsNumber.of_i64 an_i64 an_i64 = gives a_bool
  lt-Runs _ _ IsNumber.of_f32 an_f32 an_f32 = gives a_bool
  lt-Runs _ _ IsNumber.of_f64 an_f64 an_f64 = gives a_bool

  pub lte-Runs :
      {t : AiplType} (a b : Value) → IsNumber t → HasType t a → HasType t b → Runs bool (lte F a b)
  unfolding lte
  lte-Runs _ _ IsNumber.of_i32 an_i32 an_i32 = gives a_bool
  lte-Runs _ _ IsNumber.of_i64 an_i64 an_i64 = gives a_bool
  lte-Runs _ _ IsNumber.of_f32 an_f32 an_f32 = gives a_bool
  lte-Runs _ _ IsNumber.of_f64 an_f64 an_f64 = gives a_bool

  pub gt-Runs :
      {t : AiplType} (a b : Value) → IsNumber t → HasType t a → HasType t b → Runs bool (gt F a b)
  unfolding gt
  gt-Runs _ _ IsNumber.of_i32 an_i32 an_i32 = gives a_bool
  gt-Runs _ _ IsNumber.of_i64 an_i64 an_i64 = gives a_bool
  gt-Runs _ _ IsNumber.of_f32 an_f32 an_f32 = gives a_bool
  gt-Runs _ _ IsNumber.of_f64 an_f64 an_f64 = gives a_bool

  pub gte-Runs :
      {t : AiplType} (a b : Value) → IsNumber t → HasType t a → HasType t b → Runs bool (gte F a b)
  unfolding gte
  gte-Runs _ _ IsNumber.of_i32 an_i32 an_i32 = gives a_bool
  gte-Runs _ _ IsNumber.of_i64 an_i64 an_i64 = gives a_bool
  gte-Runs _ _ IsNumber.of_f32 an_f32 an_f32 = gives a_bool
  gte-Runs _ _ IsNumber.of_f64 an_f64 an_f64 = gives a_bool

  pub div-Runs :
      {t : AiplType} (a b : Value) → IsNumber t → HasType t a → HasType t b → Runs t (div F a b)
  unfolding div
  div-Runs _ _ IsNumber.of_i32 an_i32 an_i32 =
      Runs-if _ divides_by_zero (Runs-if _ overflows (gives an_i32))
  div-Runs _ _ IsNumber.of_i64 an_i64 an_i64 =
      Runs-if _ divides_by_zero (Runs-if _ overflows (gives an_i64))
  div-Runs _ _ IsNumber.of_f32 an_f32 an_f32 = gives an_f32
  div-Runs _ _ IsNumber.of_f64 an_f64 an_f64 = gives an_f64

-- An operator on integers.
abbrev pub RunsOnIntegers : (AiplType → AiplType) → (Value → Value → Outcome) → Type 0
RunsOnIntegers result f =
    (t : AiplType) (a b : Value) → IsInteger t → HasType t a → HasType t b → Runs (result t) (f a b)

pub modulo-Runs : RunsOnIntegers (λ t. t) modulo
unfolding modulo
modulo-Runs _ _ _ IsInteger.of_i32 an_i32 an_i32 =
    Runs-if _ divides_by_zero (Runs-if _ (gives an_i32) (gives an_i32))
modulo-Runs _ _ _ IsInteger.of_i64 an_i64 an_i64 =
    Runs-if _ divides_by_zero (Runs-if _ (gives an_i64) (gives an_i64))

pub div_u-Runs : RunsOnIntegers (λ t. t) div_u
unfolding div_u
div_u-Runs _ _ _ IsInteger.of_i32 an_i32 an_i32 = Runs-if _ divides_by_zero (gives an_i32)
div_u-Runs _ _ _ IsInteger.of_i64 an_i64 an_i64 = Runs-if _ divides_by_zero (gives an_i64)

pub rem_u-Runs : RunsOnIntegers (λ t. t) rem_u
unfolding rem_u
rem_u-Runs _ _ _ IsInteger.of_i32 an_i32 an_i32 = Runs-if _ divides_by_zero (gives an_i32)
rem_u-Runs _ _ _ IsInteger.of_i64 an_i64 an_i64 = Runs-if _ divides_by_zero (gives an_i64)

pub bit_xor-Runs : RunsOnIntegers (λ t. t) bit_xor
unfolding bit_xor
bit_xor-Runs _ _ _ IsInteger.of_i32 an_i32 an_i32 = gives an_i32
bit_xor-Runs _ _ _ IsInteger.of_i64 an_i64 an_i64 = gives an_i64

pub bit_and-Runs : RunsOnIntegers (λ t. t) bit_and
unfolding bit_and
bit_and-Runs _ _ _ IsInteger.of_i32 an_i32 an_i32 = gives an_i32
bit_and-Runs _ _ _ IsInteger.of_i64 an_i64 an_i64 = gives an_i64

pub bit_or-Runs : RunsOnIntegers (λ t. t) bit_or
unfolding bit_or
bit_or-Runs _ _ _ IsInteger.of_i32 an_i32 an_i32 = gives an_i32
bit_or-Runs _ _ _ IsInteger.of_i64 an_i64 an_i64 = gives an_i64

pub shl-Runs : RunsOnIntegers (λ t. t) shl
unfolding shl
shl-Runs _ _ _ IsInteger.of_i32 an_i32 an_i32 = gives an_i32
shl-Runs _ _ _ IsInteger.of_i64 an_i64 an_i64 = gives an_i64

pub shr-Runs : RunsOnIntegers (λ t. t) shr
unfolding shr
shr-Runs _ _ _ IsInteger.of_i32 an_i32 an_i32 = gives an_i32
shr-Runs _ _ _ IsInteger.of_i64 an_i64 an_i64 = gives an_i64

pub shr_u-Runs : RunsOnIntegers (λ t. t) shr_u
unfolding shr_u
shr_u-Runs _ _ _ IsInteger.of_i32 an_i32 an_i32 = gives an_i32
shr_u-Runs _ _ _ IsInteger.of_i64 an_i64 an_i64 = gives an_i64

pub rotate-Runs : (left : Bool) → RunsOnIntegers (λ t. t) (rotate left)
unfolding rotate
rotate-Runs left _ _ _ IsInteger.of_i32 an_i32 an_i32 = gives an_i32
rotate-Runs left _ _ _ IsInteger.of_i64 an_i64 an_i64 = gives an_i64

pub compare_u-Runs :
    (op : OpCode) (test : ℕ → ℕ → Bool) → RunsOnIntegers (λ _. bool) (compare_u op test)
unfolding compare_u
compare_u-Runs op test _ _ _ IsInteger.of_i32 an_i32 an_i32 = gives a_bool
compare_u-Runs op test _ _ _ IsInteger.of_i64 an_i64 an_i64 = gives a_bool

checked_result-Runs :
    {t : AiplType} (op : OpCode) (of : ℤ → Value) (o : Option ℤ)
    → ((v : ℤ) → HasType t (of v))
    → Runs t (checked_result op of o)
checked_result-Runs op of none h = exceeds
checked_result-Runs op of (some v) h = gives (h v)

pub checked_op-Runs :
    (op : OpCode) (f : ℕ → ℤ → ℤ → Option ℤ) → RunsOnIntegers (λ t. t) (checked_op op f)
unfolding checked_op
checked_op-Runs op f _ _ _ IsInteger.of_i32 an_i32 an_i32 =
    checked_result-Runs op int _ (λ v. an_i32)
checked_op-Runs op f _ _ _ IsInteger.of_i64 an_i64 an_i64 =
    checked_result-Runs op int64 _ (λ v. an_i64)
