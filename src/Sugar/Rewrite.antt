-- ===== src/Sugar/Rewrite.antt =====
-- The rewriting of the forms: `rewrite` of src/sugar.rs. An index out of range, the arithmetic that
-- overflows and the `unreachable!` are `panic`.
use Prim.Native.String.{◌++◌}
use aipl.Base.{
  ℕ, ◌+◌, pos, String, Bool, true, false, ◌||◌, ◌&&◌, Option, none, some, List, [], ◌∷◌, length,
  str_eq, if◌then◌else◌, Result, ok, err, ◌>>=◌,
}
use aipl.Text.Decimal.{decimal}
use aipl.Token.{TokenKind, Pos, l_paren, r_paren, colon, symbol, int_lit}
use aipl.Sx.{
  Sx, Items, atom, list, nil, cons, to_list, of_list, is_paren, is_square, head, position,
}
use aipl.Sugar.Shape.{Place, at_form, at_step, shape_error}

pub data Failure : Type 0 where
  mistake : String → Failure
  panic : Failure

abbrev pub list_at : List Sx → Pos → Sx
list_at xs (l, c) =
    list (record { kind = l_paren; line = l; col = c }) (of_list xs)
      (record { kind = r_paren; line = l; col = c })

abbrev pub kind_at : TokenKind → Pos → Sx
kind_at k (l, c) = atom (record { kind = k; line = l; col = c })

abbrev pub sugar_symbol_at : String → Pos → Sx
sugar_symbol_at s p = kind_at (symbol s) p

abbrev pub int_at : ℕ → Pos → Sx
int_at v p = kind_at (int_lit (pos v)) p

-- `(and a (and b c))`: the operands after the first, two at least.
abbrev pub nest : String → Pos → List Sx → Option Sx
nest op p [] = none
nest op p (x ∷ []) = none
nest op p (x ∷ y ∷ []) = some (list_at (sugar_symbol_at op p ∷ x ∷ y ∷ []) p)
nest op p (x ∷ xs) = elim (nest op p xs) [
  | none ↦ none
  | some tail ↦ some (list_at (sugar_symbol_at op p ∷ x ∷ tail ∷ []) p)
]

-- The stores of an array literal, from the K-th value on.
abbrev pub arr_sets : ℕ → Sx → String → Pos → List Sx → List Sx
arr_sets k t name p [] = sugar_symbol_at name p ∷ []
arr_sets k t name p (v ∷ vs) =
    list_at (sugar_symbol_at "arr.set" p ∷ t ∷ sugar_symbol_at name p ∷ int_at k p ∷ v ∷ []) p
    ∷ arr_sets (k + 1) t name p vs

abbrev pub array_name : Pos → String
array_name (l, c) = "_arr_of_" ++ (decimal l ++ ("_" ++ decimal c))

abbrev pub rewrite_for : Pos → List Sx → Result Failure Sx
rewrite_for p (_ ∷ i ∷ start ∷ end ∷ body) =
    let last = list_at (sugar_symbol_at "-" p ∷ end ∷ int_at 1 p ∷ []) p in
    ok (list_at (sugar_symbol_at "counted_loop" p ∷ i ∷ start ∷ last ∷ int_at 1 p ∷ body) p)
rewrite_for p _ = err panic

-- `(call (alloc.array T) rest...)`
abbrev pub array_call : String → Pos → Sx → List Sx → Sx
array_call prefix p t rest =
    list_at
      (sugar_symbol_at "call" p ∷ list_at (sugar_symbol_at (prefix ++ "array") p ∷ t ∷ []) p ∷ rest)
      p

abbrev pub rewrite_arr_new : Result String String → Pos → List Sx → Result Failure Sx
rewrite_arr_new (ok prefix) p (_ ∷ t ∷ rest) = ok (array_call prefix p t rest)
rewrite_arr_new _ p _ = err panic

abbrev pub rewrite_arr_of : Result String String → Pos → List Sx → Result Failure Sx
rewrite_arr_of (ok prefix) p (_ ∷ t ∷ allocator ∷ values) =
    let name = array_name p in
    let array = list_at (sugar_symbol_at "arr" p ∷ t ∷ []) p in
    let make = array_call prefix p t (allocator ∷ int_at (length values) p ∷ []) in
    ok (
      list_at
        (sugar_symbol_at "block" p
          ∷ list_at
              (sugar_symbol_at "let" p
                ∷ sugar_symbol_at name p
                ∷ kind_at colon p
                ∷ array
                ∷ make
                ∷ [])
              p
          ∷ arr_sets 0 t name p values)
        p)
rewrite_arr_of _ p _ = err panic

abbrev pub rewrite_nested : String → Pos → Sx → List Sx → Result Failure Sx
rewrite_nested op p whole (first ∷ a ∷ b ∷ c ∷ rest) = elim (nest op p (b ∷ c ∷ rest)) [
  | none ↦ err panic
  | some tail ↦ ok (list_at (first ∷ a ∷ tail ∷ []) p)
]
rewrite_nested op p whole _ = ok whole

-- The form itself, its items rewritten; and whether it makes memory.
unfoldable pub rewrite_form :
    Result String String → String → Sx → List Sx → Result Failure (Sx × Bool)
rewrite_form alloc h whole xs =
    let p = position whole in
    if str_eq h "for"
    then (rewrite_for p xs >>= λ sx. ok (sx, false))
    else if str_eq h "new"
    then ok (whole, true)
    else if str_eq h "arr.new"
    then (rewrite_arr_new alloc p xs >>= λ sx. ok (sx, true))
    else if str_eq h "arr.of"
    then (rewrite_arr_of alloc p xs >>= λ sx. ok (sx, true))
    else if str_eq h "and" || str_eq h "or"
    then (rewrite_nested h p whole xs >>= λ sx. ok (sx, false))
    else ok (whole, false)

abbrev pub last_is_square : Items → Bool
last_is_square nil = false
last_is_square (cons x nil) = is_square x
last_is_square (cons _ (cons y ys)) = last_is_square (cons y ys)

abbrev pub fifth_or : Sx → List Sx → Sx
fifth_or sx (_ ∷ _ ∷ _ ∷ _ ∷ x ∷ _) = x
fifth_or sx _ = sx

-- The `[f:v ...]` of a named `new` or `make` holds expressions.
abbrev pub named_form : Sx → Items → Bool
named_form sx xs = elim (head sx) [
  | none ↦ false
  | some h ↦ (str_eq h "new" || str_eq h "make") && last_is_square xs
]

module _ (alloc : Result String String) (place : Sx → String → String) where
  abbrev pub placed : Sx → List Sx → Option (Place × String) → Option String
  placed sx xs none = none
  placed sx xs (some (at_form, e)) = some (place sx e)
  placed sx xs (some (at_step, e)) = some (place (fifth_or sx xs) e)

  -- What is checked of a form before its items are rewritten.
  abbrev pub before : Sx → List Sx → Option String
  before sx xs = elim (head sx) [ none ↦ none | some h ↦ placed sx xs (shape_error alloc h xs) ]

  abbrev pub after : Option String → Sx → List Sx → Result Failure (Sx × Bool)
  after none whole xs = ok (whole, false)
  after (some h) whole xs = rewrite_form alloc h whole xs

  unfoldable mutual
    -- The form rewritten, inner forms first, and whether it makes memory.
    pub rewrite : Sx → Result Failure (Sx × Bool)
    rewrite (atom t) = ok (atom t, false)
    rewrite (list o xs c) = elim (is_paren (list o xs c)) [
      | false ↦ ok (list o xs c, false)
      | true ↦ elim (before (list o xs c) (to_list xs)) [
        | some e ↦ err (mistake e)
        | none ↦ do
          (ys, inner) ← rewrite_inside (named_form (list o xs c) xs) xs
          (sx, outer) ← after (head (list o xs c)) (list o ys c) (to_list ys)
          ok (sx, inner || outer)
      ]
    ]

    -- `items.len() - 1` overflows at an empty list.
    pub rewrite_inside : Bool → Items → Result Failure (Items × Bool)
    rewrite_inside named nil = err panic
    rewrite_inside named (cons x nil) = do
      (x', used) ← elim named [ true ↦ rewrite_values x | false ↦ rewrite x ]
      ok (cons x' nil, used)
    rewrite_inside named (cons x (cons y ys)) = do
      (x', used) ← rewrite x
      (ys', more) ← rewrite_inside named (cons y ys)
      ok (cons x' ys', used || more)

    -- The values of a named form's last list.
    pub rewrite_values : Sx → Result Failure (Sx × Bool)
    rewrite_values (atom t) = ok (atom t, false)
    rewrite_values (list o xs c) = do (ys, used) ← rewrite_each xs; ok (list o ys c, used)

    pub rewrite_each : Items → Result Failure (Items × Bool)
    rewrite_each nil = ok (nil, false)
    rewrite_each (cons x xs) = do
      (x', used) ← rewrite x
      (xs', more) ← rewrite_each xs
      ok (cons x' xs', used || more)
