-- ===== src/Leaks/Tests.antt =====
-- The analysis of a small module, and instances of the theorems.
use aipl.Base.{◌≡◌, ◌↔◌, refl, String, Bool, true, false, some, List, [], ◌∷◌, All}
use aipl.Base.Dict.{lookup, insert}
use aipl.Text.Decimal.{decimal, decimal_fuel}
use aipl.Ast.Op.{mem_alloc}
use aipl.Ast.Expr.{Expr, FnDef, call, op_expr, unsafe_block, void, next, done, span}
use aipl.Ast.Walk.{walk_expr}
use aipl.Leaks.{Why, sites}
use aipl.Leaks.Analysis.{
  analyse, all_sites, is_marked, reason, visit, pass, passes, chain, chain_parts, may_leak,
}
use aipl.Leaks.Check.{first_offence, check_fns, check}
use aipl.Leaks.Spec.{MayLeak}
use aipl.Leaks.Least.{may_leak_iff}
use aipl.Leaks.Chain.{Chain, chain-Chain}
use aipl.Leaks.Promise.{KeepsPromise, check-eq-nil_iff}

abbrev function : String → Bool → Expr → FnDef
function n promise e = record {
  name = n;
  params = [];
  return_type = void;
  contracts = [];
  body = next e done;
  fn_span = (1, 1);
  is_unsafe = false;
  is_no_leak = promise;
}

-- `a` calls `b`, which allocates; `c` promises not to leak, but calls `a`.
abbrev caller : FnDef
caller = function "a" false (call "b" done (2, 3))

abbrev maker : FnDef
maker = function "b" false (op_expr mem_alloc done (3, 3))

abbrev program : List FnDef
program = caller ∷ maker ∷ function "c" true (call "a" done (4, 3)) ∷ []

abbrev kept : List FnDef
kept =
    caller ∷ maker ∷ function "c" true (unsafe_block (next (call "a" done (4, 9)) done) (4, 3)) ∷ []

reports :
    check program
    ≡ (
      "c",
      "4:3: c is marked (no_leak) but calls a, which may make memory that is never freed (a calls b; b uses mem.alloc)",
    )
      ∷ []
unfolding check check_fns first_offence analyse all_sites is_marked passes pass visit reason sites
    walk_expr span chain chain_parts lookup insert decimal decimal_fuel
reports = refl

unsafe_is_the_programmers_word : check kept ≡ []
unfolding check check_fns first_offence analyse all_sites is_marked passes pass visit reason sites
    walk_expr span lookup insert
unsafe_is_the_programmers_word = refl

may_leak_iff_example :
    (may_leak (analyse program) "a" ≡ true)
    ↔ MayLeak (analyse program).all (is_marked program) program "a"
may_leak_iff_example = may_leak_iff program "a"

check-eq-nil_iff_example : (check kept ≡ []) ↔ All (KeepsPromise kept) kept
check-eq-nil_iff_example = check-eq-nil_iff kept

chain-Chain_example :
    (parts : List (String × Why)) × ((chain (analyse program) "a" ≡ some parts)
      × Chain (analyse program).why "a" parts)
unfolding analyse all_sites is_marked passes pass visit reason sites walk_expr span lookup insert
chain-Chain_example = chain-Chain program "a" refl
