-- ===== src/Scopes/Walk.antt =====
-- The walk over a function's body: `Scopes::walk` and `Scopes::scoped` of src/scopes.rs. A form is
-- walked by the function that its head and its shape choose.
use aipl.Base.{true, false, if◌then◌else◌}
use aipl.Sx.{Sx, Items, atom, list, nil, cons, kind_symbol, as_symbol, is_square, is_some_str}
use aipl.Scopes.{M, pure, ◌>>=◌, ◌>>◌, declare, push_scope, pop_scope, use_symbol}
use aipl.Scopes.Form.{
  form_of, is_else, let_form, scope_form, if_form, while_form, counted_form, cond_form, match_form,
  result_form, call_form, other_form, headless_form,
}

-- A computation in a scope of its own.
abbrev pub in_scope : {A : Type 0} → M A → M A
in_scope m = do push_scope; a ← m; pop_scope; pure a

-- A binder of a match arm; `_` binds nothing.
abbrev pub declare_binder : Sx → M Sx
declare_binder b = if is_some_str (as_symbol b) "_" then pure b else declare b

unfoldable pub declare_binders : Items → M Items
declare_binders nil = pure nil
declare_binders (cons b bs) = do b' ← declare_binder b; bs' ← declare_binders bs; pure (cons b' bs')

unfoldable mutual
  pub walk : Sx → M Sx
  walk (atom t) = use_symbol t (kind_symbol t.kind)
  walk (list o xs c) = do
    ys ← elim (form_of (list o xs c)) [
      | let_form ↦ walk_let xs
      | scope_form ↦ in_scope (walk_rest xs)
      | if_form ↦ walk_if xs
      | while_form ↦ walk_while xs
      | counted_form ↦ walk_counted xs
      | cond_form ↦ walk_clauses xs
      | match_form ↦ walk_match xs
      | result_form ↦ walk_result xs
      | call_form ↦ walk_call xs
      | other_form ↦ walk_rest xs
      | headless_form ↦ walk_items xs
    ]
    pure (list o ys c)

  pub walk_items : Items → M Items
  walk_items nil = pure nil
  walk_items (cons x xs) = do x' ← walk x; xs' ← walk_items xs; pure (cons x' xs')

  -- The items after the first.
  pub walk_rest : Items → M Items
  walk_rest nil = pure nil
  walk_rest (cons x xs) = do xs' ← walk_items xs; pure (cons x xs')

  -- `(let x : T value...)`: the value is walked before the name is declared.
  pub walk_let : Items → M Items
  walk_let (cons h (cons x (cons col (cons ty value)))) = do
    value' ← walk_items value
    x' ← declare x
    pure (cons h (cons x' (cons col (cons ty value'))))
  walk_let xs = pure xs

  pub walk_if : Items → M Items
  walk_if (cons h (cons c branches)) = do
    c' ← walk c
    branches' ← walk_branches branches
    pure (cons h (cons c' branches'))
  walk_if xs = pure xs

  pub walk_branches : Items → M Items
  walk_branches nil = pure nil
  walk_branches (cons b bs) = do b' ← in_scope (walk b); bs' ← walk_branches bs; pure (cons b' bs')

  pub walk_while : Items → M Items
  walk_while (cons h (cons c body)) = do
    c' ← walk c
    body' ← in_scope (walk_items body)
    pure (cons h (cons c' body'))
  walk_while xs = pure xs

  -- `(counted_loop i start end step body...)`: the variable is not visible in the bounds.
  pub walk_counted : Items → M Items
  walk_counted (cons h (cons i (cons start (cons end (cons step body))))) = do
    start' ← walk start
    end' ← walk end
    step' ← walk step
    (i', body') ← in_scope (do i' ← declare i; body' ← walk_items body; pure (i', body'))
    pure (cons h (cons i' (cons start' (cons end' (cons step' body')))))
  walk_counted xs = pure xs

  pub walk_clauses : Items → M Items
  walk_clauses nil = pure nil
  walk_clauses (cons h cs) = do cs' ← clauses cs; pure (cons h cs')

  pub clauses : Items → M Items
  clauses nil = pure nil
  clauses (cons c cs) = do c' ← clause c; cs' ← clauses cs; pure (cons c' cs')

  -- `(test body...)`, `(else body...)`.
  pub clause : Sx → M Sx
  clause (list o (cons test body) c) = do
    test' ← elim (is_else test) [ true ↦ pure test | false ↦ walk test ]
    body' ← in_scope (walk_items body)
    pure (list o (cons test' body') c)
  clause sx = pure sx

  pub walk_match : Items → M Items
  walk_match (cons h (cons x arms)) = do
    x' ← walk x
    arms' ← match_arms arms
    pure (cons h (cons x' arms'))
  walk_match xs = pure xs

  pub match_arms : Items → M Items
  match_arms nil = pure nil
  match_arms (cons a more) = do a' ← match_arm a; more' ← match_arms more; pure (cons a' more')

  -- `(V.x [binders] body...)`, `(V.x body...)`, `(else body...)`.
  pub match_arm : Sx → M Sx
  match_arm (list o (cons v parts) c) = do
    parts' ← in_scope (match_parts parts)
    pure (list o (cons v parts') c)
  match_arm sx = pure sx

  pub match_parts : Items → M Items
  match_parts nil = pure nil
  match_parts (cons (atom t) body) = do
    t' ← walk (atom t)
    body' ← walk_items body
    pure (cons t' body')
  match_parts (cons (list o xs c) body) = do
    xs' ← elim (is_square (list o xs c)) [
      | true ↦ do bs ← declare_binders xs; pure (list o bs c)
      | false ↦ walk (list o xs c)
    ]
    body' ← walk_items body
    pure (cons xs' body')

  pub walk_result : Items → M Items
  walk_result (cons h (cons x arms)) = do
    x' ← walk x
    arms' ← result_arms arms
    pure (cons h (cons x' arms'))
  walk_result xs = pure xs

  pub result_arms : Items → M Items
  result_arms nil = pure nil
  result_arms (cons a more) = do a' ← result_arm a; more' ← result_arms more; pure (cons a' more')

  -- `(ok x body...)`, `(err e body...)`.
  pub result_arm : Sx → M Sx
  result_arm (list o (cons v (cons x body)) c) = do
    (x', body') ← in_scope (do x' ← declare x; body' ← walk_items body; pure (x', body'))
    pure (list o (cons v (cons x' body')) c)
  result_arm sx = pure sx

  -- The callee names a function, not a local.
  pub walk_call : Items → M Items
  walk_call (cons h (cons f args)) = do args' ← walk_items args; pure (cons h (cons f args'))
  walk_call xs = pure xs
