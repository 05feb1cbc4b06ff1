-- ===== src/Typing/Operators.antt =====
-- The rules of the operators, on the types of their operands: each function is one arm of
-- `infer_expr_type` in src/checker.rs. A message stands at the operator's position.
use aipl.Base.{
  ◌==◌, length, ℕ, suc, String, Bool, true, false, ◌&&◌, ◌||◌, not, none, some, List, [], ◌∷◌,
  Result, ok, err, ◌>>=◌, ◌>>◌, ok_or, fail_if, if◌then◌else◌,
}
use aipl.Ast.Expr.{AiplType, bool}
use aipl.Ast.Op
use aipl.Ast.Op.{OpCode}
use aipl.Ast.TypeEq.{type_eq}
use aipl.Typing.Kinds.{
  sealed, either, is_integer, is_number, is_enum, is_union, is_struct, is_str, is_bool,
  is_reference, special, meet,
}

pub data TypeError : Type 0 where
  operand_count : OpCode → TypeError
  binary_mismatch comparison_mismatch : AiplType → AiplType → TypeError
  needs_integers needs_numbers reference_arithmetic union_arithmetic enum_arithmetic :
      OpCode → AiplType → TypeError
  parameter_arithmetic parameter_comparison : OpCode → String → TypeError
  joins_strings : TypeError
  union_comparison struct_comparison str_comparison unordered bool_order unsigned_order :
      OpCode → AiplType → TypeError
  wrong_operand : OpCode → (operand : ℕ) → (want got : AiplType) → TypeError
  not_bool : OpCode → AiplType → TypeError

abbrev pub Rule : Type 0
Rule = List AiplType → Result TypeError AiplType

abbrev pub no_parameter : (String → TypeError) → AiplType → AiplType → Result TypeError (Unit {0})
no_parameter message t1 t2 = elim (either (sealed t1) (sealed t2)) [
  | none ↦ ok tt
  | some p ↦ err (message p)
]

-- checked.add, checked.sub and checked.mul.
unfoldable pub checked_rule : OpCode → Rule
checked_rule op (t1 ∷ t2 ∷ []) = do
  fail_if (not (type_eq t1 t2)) (binary_mismatch t1 t2)
  fail_if (not (is_integer t1)) (needs_integers op t1)
  ok t1
checked_rule op _ = err (operand_count op)

-- `+`, `-`, `*` and `/` take floats too.
abbrev pub integer_only : OpCode → Bool
integer_only Op.add = false
integer_only Op.sub = false
integer_only Op.mul = false
integer_only Op.div = false
integer_only op = true

abbrev pub is_add : OpCode → Bool
is_add Op.add = true
is_add op = false

-- The operand that a message is about: the special one, if one is.
abbrev pub explained : AiplType → AiplType → AiplType
explained t1 t2 = if not (special t1) && special t2 then t2 else t1

unfoldable pub arithmetic_rule : OpCode → Rule
arithmetic_rule op (t1 ∷ t2 ∷ []) = do
  no_parameter (parameter_arithmetic op) t1 t2
  let t = explained t1 t2 in
      fail_if (not (type_eq t t2) && not (special t)) (binary_mismatch t t2)
      >> (fail_if (is_reference t) (reference_arithmetic op t)
          >> (fail_if (is_union t) (union_arithmetic op t)
              >> (fail_if (is_str t && is_add op) joins_strings
                  >> (fail_if (integer_only op && not (is_integer t || is_enum t))
                        (needs_integers op t)
                      >> (fail_if (not (is_number t || is_enum t)) (needs_numbers op t)
                          >> (fail_if (is_enum t) (enum_arithmetic op t) >> ok t))))))
arithmetic_rule op _ = err (operand_count op)

-- bitnot, clz, ctz and popcnt.
unfoldable pub bits_rule : OpCode → Rule
bits_rule op (t ∷ []) = fail_if (not (is_integer t)) (needs_integers op t) >> ok t
bits_rule op _ = err (operand_count op)

abbrev pub is_equality : OpCode → Bool
is_equality Op.eq = true
is_equality Op.neq = true
is_equality op = false

abbrev pub is_unsigned : OpCode → Bool
is_unsigned Op.lt_u = true
is_unsigned Op.lte_u = true
is_unsigned Op.gt_u = true
is_unsigned Op.gte_u = true
is_unsigned op = false

unfoldable pub comparison_rule : OpCode → Rule
comparison_rule op (t1 ∷ t2 ∷ []) = do
  no_parameter (parameter_comparison op) t1 t2
  t ← ok_or (meet t1 t2) (comparison_mismatch t1 t2)
  fail_if (is_unsigned op && not (is_integer t)) (unsigned_order op t)
  fail_if (is_union t) (union_comparison op t)
  fail_if (is_struct t) (struct_comparison op t)
  fail_if (is_str t) (str_comparison op t)
  fail_if ((is_reference t || is_enum t) && not (is_equality op)) (unordered op t)
  fail_if (is_bool t && not (is_equality op)) (bool_order op t)
  ok bool
comparison_rule op _ = err (operand_count op)

unfoldable pub logic_rule : OpCode → Rule
logic_rule op (t1 ∷ t2 ∷ []) = do
  fail_if (not (is_bool t1)) (not_bool op t1)
  fail_if (not (is_bool t2)) (not_bool op t2)
  ok bool
logic_rule op _ = err (operand_count op)

unfoldable pub not_rule : OpCode → Rule
not_rule op (t ∷ []) = fail_if (not (is_bool t)) (not_bool op t) >> ok bool
not_rule op _ = err (operand_count op)

-- The operands one by one, from the `i`th.
unfoldable pub check_operands :
    OpCode → ℕ → List AiplType → List AiplType → Result TypeError (Unit {0})
check_operands op i (t ∷ ts) (w ∷ want) =
    fail_if (not (type_eq t w)) (wrong_operand op i w t) >> check_operands op (suc i) ts want
check_operands op i _ _ = ok tt

-- `expect_operands`, and the loads and stores, which ask the same of their operands.
unfoldable pub expect_operands :
    OpCode → List AiplType → List AiplType → Result TypeError (Unit {0})
expect_operands op ts want =
    fail_if (not (length ts == length want)) (operand_count op) >> check_operands op 1 ts want

unfoldable pub operand_rule : OpCode → List AiplType → AiplType → Rule
operand_rule op want result ts = expect_operands op ts want >> ok result
