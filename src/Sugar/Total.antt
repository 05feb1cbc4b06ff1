-- ===== src/Sugar/Total.antt =====
-- `rewrite` of src/sugar.rs on forms with no empty list inside.
use aipl.Base.{
  ℕ, suc, ◌≡◌, ◌≢◌, refl, ap, String, Bool, true, false, ◌||◌, Option, none, some, List, length,
  Result, ok, err, ◌>>=◌, arith, Bool-cases, Option-cases, inl, inr,
}
use aipl.Token.{Token}
use aipl.Sx.{Sx, Items, atom, list, nil, cons, to_list, is_paren, head}
use aipl.Sugar.Shape.{Place, shape_error, at_form, at_step}
use aipl.Sugar.Rewrite.{
  placed, Failure, mistake, panic, before, after, named_form, rewrite, rewrite_inside,
  rewrite_values, rewrite_each,
}
use aipl.Sugar.Safe.{Safe, gives, refuses, form-Safe, Safe-ne-panic}

-- No list inside is empty, but for a `[]`.
mutual
  pub data IsFull : Sx → Type 0 where
    full_atom : (t : Token) → IsFull (atom t)
    full_list :
        (o c : Token) (x : Sx) (xs : Items) → AreFull (cons x xs) → IsFull (list o (cons x xs) c)
    full_square :
        (o c : Token) (xs : Items)
        → is_paren (list o xs c) ≡ false
        → AreFull xs
        → IsFull (list o xs c)

  pub data AreFull : Items → Type 0 where
    full_nil : AreFull nil
    full_cons : (x : Sx) (xs : Items) → IsFull x → AreFull xs → AreFull (cons x xs)

-- A result that keeps the number of the items.
data Keeps (n : ℕ) : Result Failure (Items × Bool) → Type 0 where
  keeps : (ys : Items) (u : Bool) → length (to_list ys) ≡ n → Keeps n (ok (ys, u))
  stops : (e : String) → Keeps n (err (mistake e))

module _ (alloc : Result String String) (place : Sx → String → String) where
  placed-none :
      (sx : Sx) (xs : List Sx) (o : Option (Place × String))
      → placed alloc place sx xs o ≡ none
      → o ≡ none
  placed-none sx xs none h = refl
  placed-none sx xs (some (at_form, e)) h = cc
  placed-none sx xs (some (at_step, e)) h = cc

  before-shape :
      (sx : Sx) (xs : List Sx) (h : String)
      → head sx ≡ some h
      → before alloc place sx xs ≡ none
      → shape_error alloc h xs ≡ none
  before-shape sx xs h e b = placed-none sx xs (shape_error alloc h xs) (rw (e, before) at b)

  after-Safe :
      (sx whole : Sx) (xs ys : List Sx)
      → before alloc place sx xs ≡ none
      → length ys ≡ length xs
      → Safe (after alloc place (head sx) whole ys)
  after-Safe sx whole xs ys b l = elim (Option-cases (head sx)) [
    | inl e ↦ rw e (gives _)
    | inr (h, e) ↦ rw e (form-Safe alloc h whole xs ys (before-shape sx xs h e b) l)
  ]

  more-Safe :
      {r : Result Failure (Sx × Bool)} (u : Bool)
      → Safe r
      → Safe {A = Sx × Bool} (r >>= λ (out, outer). ok (out, u || outer))
  more-Safe u (gives a) = gives _
  more-Safe u (refuses e) = refuses e

  one-Keeps :
      (r : Result Failure (Sx × Bool))
      → Safe r
      → Keeps 1 (r >>= λ (x', used). ok (cons x' nil, used))
  one-Keeps _ (gives (x, u)) = keeps _ _ refl
  one-Keeps _ (refuses e) = stops e

  values_list-Safe :
      (o c : Token) (n : ℕ) (r : Result Failure (Items × Bool))
      → Keeps n r
      → Safe {A = Sx × Bool} (r >>= λ (ys, used). ok (list o ys c, used))
  values_list-Safe o c n _ (keeps ys u l) = gives _
  values_list-Safe o c n _ (stops e) = refuses e

  list-Safe :
      (sx : Sx) (xs : Items) (remake : Items → Sx) (r : Result Failure (Items × Bool))
      → before alloc place sx (to_list xs) ≡ none
      → Keeps (length (to_list xs)) r
      → Safe {A = Sx × Bool} (
          r >>= λ (ys, inner).
          after alloc place (head sx) (remake ys) (to_list ys) >>= λ (out, outer).
          ok (out, inner || outer))
  list-Safe sx xs remake _ b (stops e) = refuses e
  list-Safe sx xs remake _ b (keeps ys u l) =
      more-Safe u (after-Safe sx (remake ys) (to_list xs) (to_list ys) b l)

  each-Keeps :
      (x : Sx) (n : ℕ) (r : Result Failure (Sx × Bool)) (q : Result Failure (Items × Bool))
      → Safe r
      → Keeps n q
      → Keeps (suc n) (r >>= λ (x', used). q >>= λ (xs', more). ok (cons x' xs', used || more))
  each-Keeps x n _ _ (gives (x', u)) (keeps ys v l) = keeps _ _ (ap suc l)
  each-Keeps x n _ _ (gives (x', u)) (stops e) = stops e
  each-Keeps x n _ _ (refuses e) q = stops e

  abbrev is_cons : Items → Bool
  is_cons nil = false
  is_cons (cons _ _) = true

  full_items :
      (o c : Token) (xs : Items)
      → IsFull (list o xs c)
      → is_paren (list o xs c) ≡ true
      → AreFull xs × (is_cons xs ≡ true)
  full_items o c _ (full_list _ _ x xs f) p = (f, refl)
  full_items o c _ (full_square _ _ xs q f) p = let z : true ≡ false = ground arith in cc

  square_items : (o c : Token) (xs : Items) → IsFull (list o xs c) → AreFull xs
  square_items o c _ (full_list _ _ x xs f) = f
  square_items o c _ (full_square _ _ xs q f) = f

  mutual
    unfolding rewrite

    full-Safe : (sx : Sx) → IsFull sx → Safe (rewrite alloc place sx)
    full-Safe (atom t) f = gives _
    full-Safe (list o xs c) f = elim (Bool-cases (is_paren (list o xs c))) [
      | inr p ↦ rw (p, rewrite) (gives _)
      | inl p ↦ elim (Option-cases (before alloc place (list o xs c) (to_list xs))) [
        | inr (m, e) ↦ rw (p, e, rewrite) (refuses m)
        | inl e ↦
            let (fs, k) = full_items o c xs f p in
            let inside = inside-Keeps (named_form (list o xs c) xs) xs fs k in
            rw (p, e, rewrite) (list-Safe (list o xs c) xs (λ ys. list o ys c) _ e inside)
      ]
    ]

    inside-Keeps :
        (named : Bool) (xs : Items)
        → AreFull xs
        → is_cons xs ≡ true
        → Keeps (length (to_list xs)) (rewrite_inside alloc place named xs)
    inside-Keeps named nil f k = cc
    inside-Keeps true (cons x nil) (full_cons _ _ f fs) k = one-Keeps _ (values-Safe x f)
    inside-Keeps false (cons x nil) (full_cons _ _ f fs) k = one-Keeps _ (full-Safe x f)
    inside-Keeps named (cons x (cons y ys)) (full_cons _ _ f fs) k =
        each-Keeps x _ _ _ (full-Safe x f) (inside-Keeps named (cons y ys) fs refl)

    values-Safe : (x : Sx) → IsFull x → Safe (rewrite_values alloc place x)
    values-Safe (atom t) f = gives _
    values-Safe (list o xs c) f =
        values_list-Safe o c _ _ (each_item-Keeps xs (square_items o c xs f))

    each_item-Keeps :
        (xs : Items) → AreFull xs → Keeps (length (to_list xs)) (rewrite_each alloc place xs)
    each_item-Keeps nil f = keeps _ _ refl
    each_item-Keeps (cons x xs) (full_cons _ _ f fs) =
        each-Keeps x _ _ _ (full-Safe x f) (each_item-Keeps xs fs)

-- On a form in which no `()` stands, whatever the module's imports, rewriting gives a form or a message: no
-- index is out of range, no arithmetic overflows, and no arm taken for unreachable is reached.
pub rewrite-ne-panic :
    (alloc : Result String String) (place : Sx → String → String) (sx : Sx)
    → IsFull sx
    → rewrite alloc place sx ≢ err panic
rewrite-ne-panic alloc place sx f = Safe-ne-panic (full-Safe alloc place sx f)
