-- ===== src/Ast/Walk.antt =====
-- The expressions inside an expression, in the order in which `walk_expr` of src/compiler/wasm.rs
-- calls its visitor.
use aipl.Base.{List, [], ◌∷◌, ◌++◌}
use aipl.Ast.Expr.{
  Expr, Exprs, MaybeExpr, ElseBody, Arms, lit, var, let_expr, set, if_expr, loop, while, call,
  op_expr, ok_expr, err_expr, match_result, block, unsafe_block, get_field, put_field, sizeof,
  arr_get, arr_set, arr_len, null, cast, record_expr, with_expr, make, match_expr, return_expr,
  break_expr, continue_expr, ref, call_ref, addr, done, next, absent, present, no_else, else_body,
  no_arms, arm,
}

unfoldable mutual
  -- The expression itself and then those inside it.
  pub walk_expr : Expr → List Expr
  walk_expr (lit a p) = lit a p ∷ []
  walk_expr (var a p) = var a p ∷ []
  walk_expr (let_expr a b val p) = let_expr a b val p ∷ walk_expr val
  walk_expr (set a val p) = set a val p ∷ walk_expr val
  walk_expr (if_expr c t e p) = if_expr c t e p ∷ (walk_expr c ++ (walk_expr t ++ walk_expr e))
  walk_expr (loop a start end step body p) =
      loop a start end step body p
      ∷ (walk_expr start ++ (walk_expr end ++ (walk_expr step ++ walk_exprs body)))
  walk_expr (while c body p) = while c body p ∷ (walk_expr c ++ walk_exprs body)
  walk_expr (call a args p) = call a args p ∷ walk_exprs args
  walk_expr (op_expr a args p) = op_expr a args p ∷ walk_exprs args
  walk_expr (ok_expr a b p) = ok_expr a b p ∷ walk_expr a
  walk_expr (err_expr a b p) = err_expr a b p ∷ walk_expr a
  walk_expr (match_result a b ok_body c err_body p) =
      match_result a b ok_body c err_body p
      ∷ (walk_expr a ++ (walk_exprs ok_body ++ walk_exprs err_body))
  walk_expr (block body p) = block body p ∷ walk_exprs body
  walk_expr (unsafe_block body p) = unsafe_block body p ∷ walk_exprs body
  walk_expr (get_field a b pointer p) = get_field a b pointer p ∷ walk_expr pointer
  walk_expr (put_field a b pointer val c p) =
      put_field a b pointer val c p ∷ (walk_expr pointer ++ walk_expr val)
  walk_expr (sizeof a p) = sizeof a p ∷ []
  walk_expr (arr_get a pointer index p) =
      arr_get a pointer index p ∷ (walk_expr pointer ++ walk_expr index)
  walk_expr (arr_set a pointer index val b p) =
      arr_set a pointer index val b p ∷ (walk_expr pointer ++ (walk_expr index ++ walk_expr val))
  walk_expr (arr_len a p) = arr_len a p ∷ walk_expr a
  walk_expr (null a p) = null a p ∷ []
  walk_expr (cast a address gen p) = cast a address gen p ∷ (walk_expr address ++ walk_maybe gen)
  walk_expr (record_expr a args p) = record_expr a args p ∷ walk_exprs args
  walk_expr (with_expr a b value new_val p) =
      with_expr a b value new_val p ∷ (walk_expr value ++ walk_expr new_val)
  walk_expr (make a b args p) = make a b args p ∷ walk_exprs args
  walk_expr (match_expr value arms other p) =
      match_expr value arms other p ∷ (walk_expr value ++ (walk_arms arms ++ walk_else other))
  walk_expr (return_expr val p) = return_expr val p ∷ walk_maybe val
  walk_expr (break_expr p) = break_expr p ∷ []
  walk_expr (continue_expr p) = continue_expr p ∷ []
  walk_expr (ref a p) = ref a p ∷ []
  walk_expr (call_ref a func args p) = call_ref a func args p ∷ (walk_expr func ++ walk_exprs args)
  walk_expr (addr a b p) = addr a b p ∷ walk_expr a

  pub walk_exprs : Exprs → List Expr
  walk_exprs done = []
  walk_exprs (next e es) = walk_expr e ++ walk_exprs es

  pub walk_maybe : MaybeExpr → List Expr
  walk_maybe absent = []
  walk_maybe (present e) = walk_expr e

  pub walk_else : ElseBody → List Expr
  walk_else no_else = []
  walk_else (else_body es) = walk_exprs es

  pub walk_arms : Arms → List Expr
  walk_arms no_arms = []
  walk_arms (arm _ _ body _ more) = walk_exprs body ++ walk_arms more
