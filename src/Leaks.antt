-- ===== src/Leaks.antt =====
-- The leak checker: src/leaks.rs. What each function does that may keep memory, in source order.
pub mod Analysis
pub mod Spec
pub mod Least
pub mod Chain
pub mod Check
pub mod Promise
mod Tests
use aipl.Base.{
  ℕ, zero, suc, ◌==◌, ltb, leb, String, Bool, true, false, ◌&&◌, ◌||◌, not, Option, none, some,
  List, [], ◌∷◌, ◌++◌, map, any, str_eq, if◌then◌else◌,
}
use aipl.Token.{Pos}
use aipl.Ast.Op.{OpCode, mem_alloc, format_str, abort, format_assert}
use aipl.Ast.Expr.{
  Expr, Exprs, FnDef, AiplType, fn, call, op_expr, call_ref, unsafe_block, done, next, span,
}
use aipl.Ast.Walk.{walk_expr, walk_exprs}

-- Why a function may leak: its first allocation that is never freed, or its first call to a function
-- that may.
pub data Why : Type 0 where
  uses calls : String → Why

-- What a site does: an allocation that is never freed (what it is), or a call.
pub data Site : Type 0 where
  leak calls_fn : String → Site

abbrev pub through : String
through = "a call through a function type without (no_leak)"

pub record Sited : Type 0 where
  pub at : Pos
  pub site : Site
  pub in_unsafe : Bool

abbrev pub pos_eq : Pos → Pos → Bool
pos_eq (l, c) (m, d) = l == m && c == d

abbrev pub pos_le : Pos → Pos → Bool
pos_le (l, c) (m, d) = ltb l m || (l == m && leb c d)

abbrev pub has_pos : Pos → List Pos → Bool
has_pos p ps = any (pos_eq p) ps

abbrev pub concat_map {ℓ κ} : {A : Type ℓ} {B : Type κ} → (A → List B) → List A → List B
concat_map f [] = []
concat_map f (x ∷ xs) = f x ++ concat_map f xs

abbrev pub drop_exprs : ℕ → Exprs → Exprs
drop_exprs zero es = es
drop_exprs (suc n) done = done
drop_exprs (suc n) (next e es) = drop_exprs n es

-- The positions that `mark_unsafe` adds at an expression.
abbrev pub unsafe_at : Expr → List Pos
unsafe_at (unsafe_block body _) = map span (walk_exprs body)
unsafe_at _ = []

-- The positions that `mark_ending` adds: the message of an abort, or of a failed assert.
abbrev pub ending_op : OpCode → Exprs → Pos → List Pos
ending_op abort args p = p ∷ map span (walk_exprs args)
ending_op format_assert args p = map span (walk_exprs (drop_exprs 2 args))
ending_op _ args p = []

abbrev pub ending_at : Expr → List Pos
ending_at (op_expr o args p) = ending_op o args p
ending_at (call func args p) =
    if str_eq func "assertion.failed" || str_eq func "assertion.failed_cmp"
    then p ∷ map span (walk_exprs args)
    else []
ending_at _ = []

abbrev pub promises_no_leak : AiplType → Bool
promises_no_leak (fn _ _ no_leak) = no_leak
promises_no_leak _ = false

abbrev pub op_site : OpCode → Option Site
op_site mem_alloc = some (leak "mem.alloc")
op_site format_str = some (leak "format (a str)")
op_site _ = none

abbrev pub site_at : Expr → Option Site
site_at (op_expr o _ _) = op_site o
site_at (call_ref sig _ _ _) = if promises_no_leak sig then none else some (leak through)
site_at (call func _ _) =
    some (if str_eq func "alloc.forever" then leak "alloc.forever" else calls_fn func)
site_at _ = none

-- `visit`: nothing of an expression that ends the program.
abbrev pub sited_at : Bool → List Pos → List Pos → Expr → List Sited
sited_at fn_unsafe inside ending e = elim (has_pos (span e) ending) [
  | true ↦ []
  | false ↦ elim (site_at e) [
    | none ↦ []
    | some s ↦
        record { at = span e; site = s; in_unsafe = fn_unsafe || has_pos (span e) inside } ∷ []
  ]
]

-- `sort_by_key`: sites of one position keep their order.
abbrev pub insert_sited : Sited → List Sited → List Sited
insert_sited x [] = x ∷ []
insert_sited x (y ∷ ys) = if pos_le x.at y.at then x ∷ y ∷ ys else y ∷ insert_sited x ys

abbrev pub sort_by_pos : List Sited → List Sited
sort_by_pos [] = []
sort_by_pos (x ∷ xs) = insert_sited x (sort_by_pos xs)

-- The leaking sites and calls of `f`, in source order.
unfoldable pub sites : FnDef → List Sited
unfolding walk_expr span
sites f =
    let all = walk_exprs f.body in
    let inside = concat_map unsafe_at all in
    let ending = concat_map ending_at all in
    sort_by_pos (concat_map (sited_at f.is_unsafe inside ending) all)
