-- ===== src/Sugar/Safe.antt =====
-- The forms that src/sugar.rs rewrites, once their shape has been checked: the lemmas of Sugar.Total.
use aipl.Base.{
  ◌≤◌, ◌≡◌, ◌≢◌, refl, subst, String, Bool, true, false, ◌||◌, none, some, List, [], ◌∷◌, length,
  str_eq, eq_iff, Result, ok, err, ◌>>=◌, arith, Bool-cases, inl, inr,
}
use aipl.Token.{Pos}
use aipl.Sx.{Sx, position}
use aipl.Sugar.Shape.{shape_error}
use aipl.Sugar.Rewrite.{
  Failure, mistake, panic, nest, rewrite_for, rewrite_arr_new, rewrite_arr_of, rewrite_nested,
  rewrite_form,
}

-- A result that is a mistake in the program or a value, and no panic.
pub data Safe {A : Type 0} : Result Failure A → Type 0 where
  gives : (a : A) → Safe (ok a)
  refuses : (e : String) → Safe (err (mistake e))

pub Safe-ne-panic : {A : Type 0} {r : Result Failure A} → Safe r → r ≢ err panic
Safe-ne-panic (gives a) e = cc
Safe-ne-panic (refuses m) e = cc

shape_error-for :
    (alloc : Result String String) (xs : List Sx)
    → shape_error alloc "for" xs ≡ none
    → 4 ≤ length xs
unfolding shape_error
shape_error-for alloc xs h = ground arith

shape_error-arr_new :
    (prefix : String) (xs : List Sx) → shape_error (ok prefix) "arr.new" xs ≡ none → length xs ≡ 4
unfolding shape_error
shape_error-arr_new prefix xs h = ground arith

shape_error-arr_of :
    (prefix : String) (xs : List Sx) → shape_error (ok prefix) "arr.of" xs ≡ none → 3 ≤ length xs
unfolding shape_error
shape_error-arr_of prefix xs h = ground arith

for-Safe : (p : Pos) (xs : List Sx) → 4 ≤ length xs → Safe (rewrite_for p xs)
for-Safe p (a ∷ b ∷ c ∷ d ∷ body) h = gives _
for-Safe p [] h = let z : true ≡ false = ground arith in cc
for-Safe p (a ∷ []) h = let z : true ≡ false = ground arith in cc
for-Safe p (a ∷ b ∷ []) h = let z : true ≡ false = ground arith in cc
for-Safe p (a ∷ b ∷ c ∷ []) h = let z : true ≡ false = ground arith in cc

arr_new-Safe :
    (prefix : String) (p : Pos) (xs : List Sx)
    → 2 ≤ length xs
    → Safe (rewrite_arr_new (ok prefix) p xs)
arr_new-Safe prefix p (a ∷ b ∷ rest) h = gives _
arr_new-Safe prefix p [] h = let z : true ≡ false = ground arith in cc
arr_new-Safe prefix p (a ∷ []) h = let z : true ≡ false = ground arith in cc

arr_of-Safe :
    (prefix : String) (p : Pos) (xs : List Sx)
    → 3 ≤ length xs
    → Safe (rewrite_arr_of (ok prefix) p xs)
arr_of-Safe prefix p (a ∷ b ∷ c ∷ rest) h = gives _
arr_of-Safe prefix p [] h = let z : true ≡ false = ground arith in cc
arr_of-Safe prefix p (a ∷ []) h = let z : true ≡ false = ground arith in cc
arr_of-Safe prefix p (a ∷ b ∷ []) h = let z : true ≡ false = ground arith in cc

nest-some :
    (op : String) (p : Pos) (x y : Sx) (xs : List Sx) → (s : Sx) × (nest op p (x ∷ y ∷ xs) ≡ some s)
nest-some op p x y [] = (_, refl)
nest-some op p x y (z ∷ xs) = let (s, e) = nest-some op p y z xs in rw e (_, refl)

nested-Safe :
    (op : String) (p : Pos) (whole : Sx) (xs : List Sx) → Safe (rewrite_nested op p whole xs)
nested-Safe op p whole (a ∷ b ∷ c ∷ d ∷ rest) =
    let (s, e) = nest-some op p c d rest in rw (e, rewrite_nested) (gives _)
nested-Safe op p whole [] = gives _
nested-Safe op p whole (a ∷ []) = gives _
nested-Safe op p whole (a ∷ b ∷ []) = gives _
nested-Safe op p whole (a ∷ b ∷ c ∷ []) = gives _

used-Safe :
    {r : Result Failure Sx} (u : Bool) → Safe r → Safe {A = Sx × Bool} (r >>= λ sx. ok (sx, u))
used-Safe u (gives a) = gives _
used-Safe u (refuses e) = refuses e

named_shape :
    (alloc : Result String String) (h k : String) (xs : List Sx)
    → str_eq h k ≡ true
    → shape_error alloc h xs ≡ none
    → shape_error alloc k xs ≡ none
named_shape alloc h k xs a e =
    subst (λ w. shape_error alloc w xs ≡ none) (ground (arith, eq_iff h k)) e

arr_new_form-Safe :
    (alloc : Result String String) (p : Pos) (xs ys : List Sx)
    → shape_error alloc "arr.new" xs ≡ none
    → length ys ≡ length xs
    → Safe (rewrite_arr_new alloc p ys)
unfolding shape_error
arr_new_form-Safe (ok prefix) p xs ys e l =
    arr_new-Safe prefix p ys (omega (arith, l, shape_error-arr_new prefix xs e))
arr_new_form-Safe (err w) p xs ys e l = cc

arr_of_form-Safe :
    (alloc : Result String String) (p : Pos) (xs ys : List Sx)
    → shape_error alloc "arr.of" xs ≡ none
    → length ys ≡ length xs
    → Safe (rewrite_arr_of alloc p ys)
unfolding shape_error
arr_of_form-Safe (ok prefix) p xs ys e l =
    arr_of-Safe prefix p ys (omega (arith, l, shape_error-arr_of prefix xs e))
arr_of_form-Safe (err w) p xs ys e l = cc

-- A form whose shape was let pass, with as many items as then.
pub form-Safe :
    (alloc : Result String String) (h : String) (whole : Sx) (xs ys : List Sx)
    → shape_error alloc h xs ≡ none
    → length ys ≡ length xs
    → Safe (rewrite_form alloc h whole ys)
unfolding rewrite_form
form-Safe alloc h whole xs ys e l = elim (Bool-cases (str_eq h "for")) [
  | inl a ↦
      rw (a, rewrite_form)
        (used-Safe false (
          for-Safe (position whole) ys
            (omega (arith, l, shape_error-for alloc xs (named_shape alloc h "for" xs a e)))))
  | inr a ↦ elim (Bool-cases (str_eq h "new")) [
    | inl b ↦ rw (a, b, rewrite_form) (gives _)
    | inr b ↦ elim (Bool-cases (str_eq h "arr.new")) [
      | inl c ↦
          rw (a, b, c, rewrite_form)
            (used-Safe true (
              arr_new_form-Safe alloc (position whole) xs ys (named_shape alloc h "arr.new" xs c e)
                l))
      | inr c ↦ elim (Bool-cases (str_eq h "arr.of")) [
        | inl d ↦
            rw (a, b, c, d, rewrite_form)
              (used-Safe true (
                arr_of_form-Safe alloc (position whole) xs ys (named_shape alloc h "arr.of" xs d e)
                  l))
        | inr d ↦ elim (Bool-cases (str_eq h "and" || str_eq h "or")) [
          | inl f ↦
              rw (a, b, c, d, f, rewrite_form)
                (used-Safe false (nested-Safe h (position whole) whole ys))
          | inr f ↦ rw (a, b, c, d, f, rewrite_form) (gives _)
        ]
      ]
    ]
  ]
]
