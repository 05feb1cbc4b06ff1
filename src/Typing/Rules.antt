-- ===== src/Typing/Rules.antt =====
-- Which rule an operator has: the match of `infer_expr_type` in src/checker.rs.
use aipl.Base.{Option, none, some, [], ◌∷◌}
use aipl.Ast.Expr.{AiplType, i32, i64, f32, f64, bool, void}
use aipl.Ast.Op
use aipl.Ast.Op.{OpCode}
use aipl.Typing.Operators.{
  Rule, checked_rule, arithmetic_rule, bits_rule, comparison_rule, logic_rule, not_rule,
  operand_rule,
}

-- A conversion's operand and result types.
unfoldable pub conversion : OpCode → AiplType × AiplType
conversion Op.f64_convert_i64_s = (i64, f64)
conversion Op.f64_reinterpret_i64 = (i64, f64)
conversion Op.f64_sqrt = (f64, f64)
conversion Op.i64_trunc_f64_s = (f64, i64)
conversion Op.i64_reinterpret_f64 = (f64, i64)
conversion Op.f32_demote_f64 = (f64, f32)
conversion Op.f64_promote_f32 = (f32, f64)
conversion Op.f32_convert_i32_s = (i32, f32)
conversion Op.f32_reinterpret_i32 = (i32, f32)
conversion Op.f32_convert_i64_s = (i64, f32)
conversion Op.f64_convert_i32_s = (i32, f64)
conversion Op.i32_trunc_f32_s = (f32, i32)
conversion Op.i32_reinterpret_f32 = (f32, i32)
conversion Op.i32_trunc_f64_s = (f64, i32)
conversion Op.i64_trunc_f32_s = (f32, i64)
conversion op = (void, void)

abbrev conversion_rule : OpCode → Rule
conversion_rule op = operand_rule op ((conversion op).0 ∷ []) (conversion op).1

abbrev i32_rule : OpCode → AiplType → Rule
i32_rule op t = operand_rule op (i32 ∷ []) t

abbrev store_rule : OpCode → AiplType → Rule
store_rule op t = operand_rule op (i32 ∷ t ∷ []) void

-- The rule of an operator on values, conversions, memory and logic; `none` for the others.
unfoldable pub rule_of : OpCode → Option Rule
rule_of Op.checked_add = some (checked_rule Op.checked_add)
rule_of Op.checked_sub = some (checked_rule Op.checked_sub)
rule_of Op.checked_mul = some (checked_rule Op.checked_mul)
rule_of Op.add = some (arithmetic_rule Op.add)
rule_of Op.sub = some (arithmetic_rule Op.sub)
rule_of Op.mul = some (arithmetic_rule Op.mul)
rule_of Op.div = some (arithmetic_rule Op.div)
rule_of Op.modulo = some (arithmetic_rule Op.modulo)
rule_of Op.bit_xor = some (arithmetic_rule Op.bit_xor)
rule_of Op.shl = some (arithmetic_rule Op.shl)
rule_of Op.shr = some (arithmetic_rule Op.shr)
rule_of Op.shr_u = some (arithmetic_rule Op.shr_u)
rule_of Op.div_u = some (arithmetic_rule Op.div_u)
rule_of Op.rem_u = some (arithmetic_rule Op.rem_u)
rule_of Op.bit_and = some (arithmetic_rule Op.bit_and)
rule_of Op.bit_or = some (arithmetic_rule Op.bit_or)
rule_of Op.rotl = some (arithmetic_rule Op.rotl)
rule_of Op.rotr = some (arithmetic_rule Op.rotr)
rule_of Op.bit_not = some (bits_rule Op.bit_not)
rule_of Op.clz = some (bits_rule Op.clz)
rule_of Op.ctz = some (bits_rule Op.ctz)
rule_of Op.popcnt = some (bits_rule Op.popcnt)
rule_of Op.eq = some (comparison_rule Op.eq)
rule_of Op.neq = some (comparison_rule Op.neq)
rule_of Op.lt = some (comparison_rule Op.lt)
rule_of Op.lte = some (comparison_rule Op.lte)
rule_of Op.gt = some (comparison_rule Op.gt)
rule_of Op.gte = some (comparison_rule Op.gte)
rule_of Op.lt_u = some (comparison_rule Op.lt_u)
rule_of Op.lte_u = some (comparison_rule Op.lte_u)
rule_of Op.gt_u = some (comparison_rule Op.gt_u)
rule_of Op.gte_u = some (comparison_rule Op.gte_u)
rule_of Op.and_op = some (logic_rule Op.and_op)
rule_of Op.or_op = some (logic_rule Op.or_op)
rule_of Op.not_op = some (not_rule Op.not_op)
rule_of Op.mem_load8 = some (i32_rule Op.mem_load8 i32)
rule_of Op.mem_load32 = some (i32_rule Op.mem_load32 i32)
rule_of Op.mem_load8_s = some (i32_rule Op.mem_load8_s i32)
rule_of Op.mem_load16_u = some (i32_rule Op.mem_load16_u i32)
rule_of Op.mem_load16_s = some (i32_rule Op.mem_load16_s i32)
rule_of Op.mem_load64 = some (i32_rule Op.mem_load64 i64)
rule_of Op.mem_store8 = some (store_rule Op.mem_store8 i32)
rule_of Op.mem_store16 = some (store_rule Op.mem_store16 i32)
rule_of Op.mem_store32 = some (store_rule Op.mem_store32 i32)
rule_of Op.mem_store64 = some (store_rule Op.mem_store64 i64)
rule_of Op.mem_alloc = some (i32_rule Op.mem_alloc i32)
rule_of Op.mem_grow = some (i32_rule Op.mem_grow i32)
rule_of Op.atomic_add = some (operand_rule Op.atomic_add (i32 ∷ i32 ∷ []) i32)
rule_of Op.atomic_cas = some (operand_rule Op.atomic_cas (i32 ∷ i32 ∷ i32 ∷ []) bool)
rule_of Op.atomic_lock = some (i32_rule Op.atomic_lock void)
rule_of Op.atomic_unlock = some (i32_rule Op.atomic_unlock void)
rule_of Op.i64_extend_s = some (i32_rule Op.i64_extend_s i64)
rule_of Op.i64_extend_u = some (i32_rule Op.i64_extend_u i64)
rule_of Op.f64_convert_i64_s = some (conversion_rule Op.f64_convert_i64_s)
rule_of Op.i64_trunc_f64_s = some (conversion_rule Op.i64_trunc_f64_s)
rule_of Op.f64_reinterpret_i64 = some (conversion_rule Op.f64_reinterpret_i64)
rule_of Op.i64_reinterpret_f64 = some (conversion_rule Op.i64_reinterpret_f64)
rule_of Op.f64_sqrt = some (conversion_rule Op.f64_sqrt)
rule_of Op.f32_demote_f64 = some (conversion_rule Op.f32_demote_f64)
rule_of Op.f64_promote_f32 = some (conversion_rule Op.f64_promote_f32)
rule_of Op.f32_convert_i32_s = some (conversion_rule Op.f32_convert_i32_s)
rule_of Op.f32_convert_i64_s = some (conversion_rule Op.f32_convert_i64_s)
rule_of Op.f64_convert_i32_s = some (conversion_rule Op.f64_convert_i32_s)
rule_of Op.i32_trunc_f32_s = some (conversion_rule Op.i32_trunc_f32_s)
rule_of Op.i32_trunc_f64_s = some (conversion_rule Op.i32_trunc_f64_s)
rule_of Op.i64_trunc_f32_s = some (conversion_rule Op.i64_trunc_f32_s)
rule_of Op.f32_reinterpret_i32 = some (conversion_rule Op.f32_reinterpret_i32)
rule_of Op.i32_reinterpret_f32 = some (conversion_rule Op.i32_reinterpret_f32)
rule_of Op.i32_wrap = some (operand_rule Op.i32_wrap (i64 ∷ []) i32)
rule_of op = none
