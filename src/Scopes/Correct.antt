-- ===== src/Scopes/Correct.antt =====
-- The arms of the walk of src/scopes.rs, one lemma to an arm.
use aipl.Base.{true, false}
use aipl.Sx.{Sx, Items, atom, list, nil, cons, is_square}
use aipl.Scopes.{pure, ◌>>=◌, declare}
use aipl.Scopes.Form.{
  form_of, is_else, let_form, scope_form, if_form, while_form, counted_form, cond_form, match_form,
  result_form, call_form, other_form, headless_form,
}
use aipl.Scopes.Walk.{
  in_scope, declare_binders, walk, walk_items, walk_rest, walk_let, walk_if, walk_branches,
  walk_while, walk_counted, walk_clauses, clauses, clause, walk_match, match_arms, match_arm,
  match_parts, walk_result, result_arms, result_arm, walk_call,
}
use aipl.Scopes.Invariant.{
  Renames, RenamesAll, same, renames_list, renames_nil, renames_cons, same_items, Does, Keeps-self,
  Keeps-trans, in_scope-Does,
}
use aipl.Scopes.Declared.{declare-Does, use_symbol-Does, declare_binders-Does}

-- The rest of the items of a form, after a head that stays.
pub after_head : (h : Sx) (xs ys : Items) → RenamesAll xs ys → RenamesAll (cons h xs) (cons h ys)
after_head h xs ys r = renames_cons h h xs ys (same h) r

-- A name declared in a scope of its own, with what the scope holds.
abbrev Renames2 : Sx → Items → Sx × Items → Type 0
Renames2 x xs (y, ys) = Renames x y × RenamesAll xs ys

mutual
  unfolding walk

  pub walk-Does : (x : Sx) → Does (Renames x) (walk x)
  walk-Does (atom t) s h = use_symbol-Does t s h
  walk-Does (list o xs c) s h =
      let done : Does (RenamesAll xs) (elim (form_of (list o xs c)) [
        | let_form ↦ walk_let xs
        | scope_form ↦ in_scope (walk_rest xs)
        | if_form ↦ walk_if xs
        | while_form ↦ walk_while xs
        | counted_form ↦ walk_counted xs
        | cond_form ↦ walk_clauses xs
        | match_form ↦ walk_match xs
        | result_form ↦ walk_result xs
        | call_form ↦ walk_call xs
        | other_form ↦ walk_rest xs
        | headless_form ↦ walk_items xs
      ]) =
        elim (form_of (list o xs c))
          as (λ f. Does (RenamesAll xs) (elim f [
            | let_form ↦ walk_let xs
            | scope_form ↦ in_scope (walk_rest xs)
            | if_form ↦ walk_if xs
            | while_form ↦ walk_while xs
            | counted_form ↦ walk_counted xs
            | cond_form ↦ walk_clauses xs
            | match_form ↦ walk_match xs
            | result_form ↦ walk_result xs
            | call_form ↦ walk_call xs
            | other_form ↦ walk_rest xs
            | headless_form ↦ walk_items xs
          ])) [
            | let_form ↦ walk_let-Does xs
            | scope_form ↦ in_scope-Does (RenamesAll xs) (walk_rest xs) (walk_rest-Does xs)
            | if_form ↦ walk_if-Does xs
            | while_form ↦ walk_while-Does xs
            | counted_form ↦ walk_counted-Does xs
            | cond_form ↦ walk_clauses-Does xs
            | match_form ↦ walk_match-Does xs
            | result_form ↦ walk_result-Does xs
            | call_form ↦ walk_call-Does xs
            | other_form ↦ walk_rest-Does xs
            | headless_form ↦ walk_items-Does xs
          ] in
      let (r, k) = done s h in (renames_list _ _ _ _ r, k)

  pub walk_items-Does : (xs : Items) → Does (RenamesAll xs) (walk_items xs)
  walk_items-Does nil s h = (renames_nil, Keeps-self s h)
  walk_items-Does (cons x xs) s h =
      let (r, k) = walk-Does x s h in
      let (q, l) = walk_items-Does xs (walk x s).1 k.is_sound in
      (renames_cons _ _ _ _ r q, Keeps-trans k l)

  pub walk_rest-Does : (xs : Items) → Does (RenamesAll xs) (walk_rest xs)
  walk_rest-Does nil s h = (renames_nil, Keeps-self s h)
  walk_rest-Does (cons x xs) s h = let (r, k) = walk_items-Does xs s h in (after_head x _ _ r, k)

  pub walk_let-Does : (xs : Items) → Does (RenamesAll xs) (walk_let xs)
  walk_let-Does (cons a (cons x (cons b (cons c xs)))) s h =
      let (r, k) = walk_items-Does xs s h in
      let (q, l) = declare-Does x (walk_items xs s).1 k.is_sound in
      (
        after_head a _ _ (renames_cons _ _ _ _ q (after_head b _ _ (after_head c _ _ r))),
        Keeps-trans k l,
      )
  walk_let-Does nil s h = (renames_nil, Keeps-self s h)
  walk_let-Does (cons a nil) s h = (same_items _, Keeps-self s h)
  walk_let-Does (cons a (cons b nil)) s h = (same_items _, Keeps-self s h)
  walk_let-Does (cons a (cons b (cons c nil))) s h = (same_items _, Keeps-self s h)

  pub walk_if-Does : (xs : Items) → Does (RenamesAll xs) (walk_if xs)
  walk_if-Does (cons a (cons x xs)) s h =
      let (r, k) = walk-Does x s h in
      let (q, l) = walk_branches-Does xs (walk x s).1 k.is_sound in
      (after_head a _ _ (renames_cons _ _ _ _ r q), Keeps-trans k l)
  walk_if-Does nil s h = (renames_nil, Keeps-self s h)
  walk_if-Does (cons a nil) s h = (same_items _, Keeps-self s h)

  pub walk_branches-Does : (xs : Items) → Does (RenamesAll xs) (walk_branches xs)
  walk_branches-Does nil s h = (renames_nil, Keeps-self s h)
  walk_branches-Does (cons x xs) s h =
      let (r, k) = in_scope-Does (Renames x) (walk x) (walk-Does x) s h in
      let (q, l) = walk_branches-Does xs (in_scope (walk x) s).1 k.is_sound in
      (renames_cons _ _ _ _ r q, Keeps-trans k l)

  pub walk_while-Does : (xs : Items) → Does (RenamesAll xs) (walk_while xs)
  walk_while-Does (cons a (cons x xs)) s h =
      let (r, k) = walk-Does x s h in
      let (q, l) =
        in_scope-Does (RenamesAll xs) (walk_items xs) (walk_items-Does xs) (walk x s).1
          k.is_sound in
      (after_head a _ _ (renames_cons _ _ _ _ r q), Keeps-trans k l)
  walk_while-Does nil s h = (renames_nil, Keeps-self s h)
  walk_while-Does (cons a nil) s h = (same_items _, Keeps-self s h)

  pub declared_body-Does :
      (x : Sx) (xs : Items)
      → Does (Renames2 x xs) (do x' ← declare x; xs' ← walk_items xs; pure (x', xs'))
  declared_body-Does x nil s h = let (r, k) = declare-Does x s h in ((r, renames_nil), k)
  declared_body-Does x (cons y xs) s h =
      let (r, k) = declare-Does x s h in
      let (p, j) = walk-Does y (declare x s).1 k.is_sound in
      let (q, l) = walk_items-Does xs (walk y (declare x s).1).1 j.is_sound in
      ((r, renames_cons _ _ _ _ p q), Keeps-trans k (Keeps-trans j l))

  pub walk_counted-Does : (xs : Items) → Does (RenamesAll xs) (walk_counted xs)
  walk_counted-Does (cons a (cons i (cons b (cons c (cons d xs))))) s h =
      let (r1, k1) = walk-Does b s h in
      let (r2, k2) = walk-Does c (walk b s).1 k1.is_sound in
      let (r3, k3) = walk-Does d (walk c (walk b s).1).1 k2.is_sound in
      let ((p, q), l) =
        in_scope-Does (Renames2 i xs) (do i' ← declare i; xs' ← walk_items xs; pure (i', xs'))
          (declared_body-Does i xs) (walk d (walk c (walk b s).1).1).1 k3.is_sound in
      (
        after_head a _ _ (
            renames_cons _ _ _ _ p
              (renames_cons _ _ _ _ r1 (renames_cons _ _ _ _ r2 (renames_cons _ _ _ _ r3 q)))),
        Keeps-trans k1 (Keeps-trans k2 (Keeps-trans k3 l)),
      )
  walk_counted-Does nil s h = (renames_nil, Keeps-self s h)
  walk_counted-Does (cons a nil) s h = (same_items _, Keeps-self s h)
  walk_counted-Does (cons a (cons b nil)) s h = (same_items _, Keeps-self s h)
  walk_counted-Does (cons a (cons b (cons c nil))) s h = (same_items _, Keeps-self s h)
  walk_counted-Does (cons a (cons b (cons c (cons d nil)))) s h = (same_items _, Keeps-self s h)

  pub walk_clauses-Does : (xs : Items) → Does (RenamesAll xs) (walk_clauses xs)
  walk_clauses-Does nil s h = (renames_nil, Keeps-self s h)
  walk_clauses-Does (cons x xs) s h = let (r, k) = clauses-Does xs s h in (after_head x _ _ r, k)

  pub clauses-Does : (xs : Items) → Does (RenamesAll xs) (clauses xs)
  clauses-Does nil s h = (renames_nil, Keeps-self s h)
  clauses-Does (cons x xs) s h =
      let (r, k) = clause-Does x s h in
      let (q, l) = clauses-Does xs (clause x s).1 k.is_sound in
      (renames_cons _ _ _ _ r q, Keeps-trans k l)

  pub clause-Does : (xs : Sx) → Does (Renames xs) (clause xs)
  clause-Does (atom t) s h = (same _, Keeps-self s h)
  clause-Does (list o nil c) s h = (same _, Keeps-self s h)
  clause-Does (list o (cons x xs) c) s h =
      let first : Does (Renames x) (elim (is_else x) [ true ↦ pure x | false ↦ walk x ]) =
        elim (is_else x) as (λ b. Does (Renames x) (elim b [ true ↦ pure x | false ↦ walk x ])) [
          | true ↦ λ s h. (same x, Keeps-self s h)
          | false ↦ walk-Does x
        ] in
      let (r, k) = first s h in
      let (q, l) =
        in_scope-Does (RenamesAll xs) (walk_items xs) (walk_items-Does xs) _ k.is_sound in
      (renames_list _ _ _ _ (renames_cons _ _ _ _ r q), Keeps-trans k l)

  pub walk_match-Does : (xs : Items) → Does (RenamesAll xs) (walk_match xs)
  walk_match-Does (cons a (cons x xs)) s h =
      let (r, k) = walk-Does x s h in
      let (q, l) = match_arms-Does xs (walk x s).1 k.is_sound in
      (after_head a _ _ (renames_cons _ _ _ _ r q), Keeps-trans k l)
  walk_match-Does nil s h = (renames_nil, Keeps-self s h)
  walk_match-Does (cons a nil) s h = (same_items _, Keeps-self s h)

  pub match_arms-Does : (xs : Items) → Does (RenamesAll xs) (match_arms xs)
  match_arms-Does nil s h = (renames_nil, Keeps-self s h)
  match_arms-Does (cons x xs) s h =
      let (r, k) = match_arm-Does x s h in
      let (q, l) = match_arms-Does xs (match_arm x s).1 k.is_sound in
      (renames_cons _ _ _ _ r q, Keeps-trans k l)

  pub walk_result-Does : (xs : Items) → Does (RenamesAll xs) (walk_result xs)
  walk_result-Does (cons a (cons x xs)) s h =
      let (r, k) = walk-Does x s h in
      let (q, l) = result_arms-Does xs (walk x s).1 k.is_sound in
      (after_head a _ _ (renames_cons _ _ _ _ r q), Keeps-trans k l)
  walk_result-Does nil s h = (renames_nil, Keeps-self s h)
  walk_result-Does (cons a nil) s h = (same_items _, Keeps-self s h)

  pub result_arms-Does : (xs : Items) → Does (RenamesAll xs) (result_arms xs)
  result_arms-Does nil s h = (renames_nil, Keeps-self s h)
  result_arms-Does (cons x xs) s h =
      let (r, k) = result_arm-Does x s h in
      let (q, l) = result_arms-Does xs (result_arm x s).1 k.is_sound in
      (renames_cons _ _ _ _ r q, Keeps-trans k l)

  pub match_arm-Does : (xs : Sx) → Does (Renames xs) (match_arm xs)
  match_arm-Does (atom t) s h = (same _, Keeps-self s h)
  match_arm-Does (list o nil c) s h = (same _, Keeps-self s h)
  match_arm-Does (list o (cons x xs) c) s h =
      let (r, k) = in_scope-Does (RenamesAll xs) (match_parts xs) (match_parts-Does xs) s h in
      (renames_list _ _ _ _ (after_head x _ _ r), k)

  pub match_parts-Does : (xs : Items) → Does (RenamesAll xs) (match_parts xs)
  match_parts-Does nil s h = (renames_nil, Keeps-self s h)
  match_parts-Does (cons (atom t) xs) s h =
      let (r, k) = walk-Does (atom t) s h in
      let (q, l) = walk_items-Does xs (walk (atom t) s).1 k.is_sound in
      (renames_cons _ _ _ _ r q, Keeps-trans k l)
  match_parts-Does (cons (list o ys c) xs) s h =
      let first : Does (Renames (list o ys c)) (elim (is_square (list o ys c)) [
        | true ↦ do bs ← declare_binders ys; pure (list o bs c)
        | false ↦ walk (list o ys c)
      ]) =
        elim (is_square (list o ys c))
          as (λ b. Does (Renames (list o ys c)) (elim b [
            | true ↦ do bs ← declare_binders ys; pure (list o bs c)
            | false ↦ walk (list o ys c)
          ])) [
            | true ↦ λ s h. let (r, k) = declare_binders-Does ys s h in (renames_list _ _ _ _ r, k)
            | false ↦ walk-Does (list o ys c)
          ] in
      let (r, k) = first s h in
      let (q, l) = walk_items-Does xs _ k.is_sound in (renames_cons _ _ _ _ r q, Keeps-trans k l)

  pub result_arm-Does : (xs : Sx) → Does (Renames xs) (result_arm xs)
  result_arm-Does (atom t) s h = (same _, Keeps-self s h)
  result_arm-Does (list o nil c) s h = (same _, Keeps-self s h)
  result_arm-Does (list o (cons x nil) c) s h = (same _, Keeps-self s h)
  result_arm-Does (list o (cons x (cons y xs)) c) s h =
      let ((p, q), l) =
        in_scope-Does (Renames2 y xs) (do y' ← declare y; xs' ← walk_items xs; pure (y', xs'))
          (declared_body-Does y xs) s h in
      (renames_list _ _ _ _ (after_head x _ _ (renames_cons _ _ _ _ p q)), l)

  pub walk_call-Does : (xs : Items) → Does (RenamesAll xs) (walk_call xs)
  walk_call-Does (cons a (cons x xs)) s h =
      let (r, k) = walk_items-Does xs s h in (after_head a _ _ (after_head x _ _ r), k)
  walk_call-Does nil s h = (renames_nil, Keeps-self s h)
  walk_call-Does (cons a nil) s h = (same_items _, Keeps-self s h)
