-- ===== src/Scopes/Faithful.antt =====
-- What `rename_locals` of src/scopes.rs gives for a whole function, and what a block leaves behind.
use aipl.Base.{
  ℕ, ◌≤◌, ◌≡◌, String, Option, none, some, List, [], ◌∷◌, arith, str_eq, eq_iff, inl, inr,
  Bool-cases,
}
use aipl.Base.Dict.{Dict, lookup, insert, lookup-insert}
use aipl.Token.{Token}
use aipl.Sx.{Sx, Items, atom, list, nil, cons, items, as_symbol}
use aipl.Scopes.{Scopes, count_of, renamed}
use aipl.Scopes.Form.{form_of, scope_form}
use aipl.Scopes.Walk.{walk, walk_rest}
use aipl.Scopes.Locals.{rename_locals, declare_params, declare_param, empty_scopes, every_third}
use aipl.Scopes.Invariant.{
  Renames, RenamesAll, same, renames_list, IsSound, bottom, AllAliases, counts-AllAliases,
  count-insert, in_scope-stack, Keeps,
}
use aipl.Scopes.Correct.{walk_items-Does, walk_rest-Does, after_head, walk-Does}

-- While the parameters are declared each name counts at most once, and is bound to itself.
data IsParams : Scopes → Type 0 where
  params :
      (seen : Dict ℕ) (m : Dict String)
      → ((n : String) → count_of n seen ≤ 1)
      → AllAliases seen m
      → IsParams (record { seen = seen; stack = m ∷ [] })

declare_param-AllAliases :
    (n : String) (seen : Dict ℕ) (m : Dict String)
    → ((j : String) → count_of j seen ≤ 1)
    → AllAliases seen m
    → AllAliases (insert n 1 seen) (insert n n m)
unfolding renamed
declare_param-AllAliases n seen m c h j v e = elim (Bool-cases (str_eq n j)) [
  | inl t ↦ (
    1,
    ground (arith, count-insert n j 1 seen),
    ground (arith, eq_iff n j, lookup-insert n j n m),
  )
  | inr f ↦
      counts-AllAliases seen (insert n 1 seen) m (λ i. ground (arith, c i, count-insert n i 1 seen))
        h j v (ground (arith, lookup-insert n j n m))
]

declare_param-IsParams :
    (o : Option String) (s : Scopes) → IsParams s → IsParams (declare_param o s)
declare_param-IsParams none s h = h
declare_param-IsParams (some n) _ (params seen m c h) =
    params _ _ (λ j. ground (arith, c j, count-insert n j 1 seen))
      (declare_param-AllAliases n seen m c h)

declare_params-IsParams : (ps : List Sx) (s : Scopes) → IsParams s → IsParams (declare_params ps s)
unfolding declare_params
declare_params-IsParams [] s h = h
declare_params-IsParams (p ∷ ps) s h =
    declare_params-IsParams ps (declare_param (as_symbol p) s)
      (declare_param-IsParams (as_symbol p) s h)

IsParams-IsSound : {s : Scopes} → IsParams s → IsSound s.seen s.stack
IsParams-IsSound (params seen m c h) = bottom seen m h

empty-IsParams : IsParams empty_scopes
unfolding lookup
empty-IsParams = params [] [] (λ n. omega arith) (λ n v e. cc)

-- Renaming the locals of a function changes nothing but symbols, and each of them only into one of
-- its own renamings.
pub rename_locals-Renames : (f : Sx) → Renames f (rename_locals f)
unfolding rename_locals
rename_locals-Renames (list o (cons a (cons b (cons ps (cons d (cons e body))))) c) =
    let start = declare_params-IsParams (every_third (items ps)) empty_scopes empty-IsParams in
    let (r, _) = walk_items-Does body _ (IsParams-IsSound start) in
    renames_list _ _ _ _ (
      after_head a _ _
        (after_head b _ _ (after_head ps _ _ (after_head d _ _ (after_head e _ _ r)))))
rename_locals-Renames (atom t) = same _
rename_locals-Renames (list o nil c) = same _
rename_locals-Renames (list o (cons a nil) c) = same _
rename_locals-Renames (list o (cons a (cons b nil)) c) = same _
rename_locals-Renames (list o (cons a (cons b (cons d nil))) c) = same _
rename_locals-Renames (list o (cons a (cons b (cons d (cons e nil)))) c) = same _

-- From scopes whose names are bound to renamings given out, walking any form keeps them so, changes no
-- scope below the innermost, takes no name from the innermost, and lowers no count of declarations.
pub walk-Keeps : (x : Sx) (s : Scopes) → IsSound s.seen s.stack → Keeps s (walk x s).1
walk-Keeps x s h = (walk-Does x s h).1

-- From scopes whose names are bound to renamings given out, a block, an `unsafe` block, a `defer` or a
-- contract leaves the scopes as they were: what it declares is not visible after it.
pub walk-scope_stack :
    (o c : Token) (xs : Items) (s : Scopes)
    → IsSound s.seen s.stack
    → form_of (list o xs c) ≡ scope_form
    → (walk (list o xs c) s).1.stack ≡ s.stack
unfolding walk
walk-scope_stack o c xs s h e =
    rw (e, walk) (in_scope-stack (RenamesAll xs) (walk_rest xs) (walk_rest-Does xs) s h)
