-- ===== src/Sugar/Shape.antt =====
-- What src/sugar.rs refuses about a form's shape, before it looks inside.
use aipl.Base.{
  ℕ, ◌==◌, ltb, leb, String, Bool, true, false, ◌&&◌, ◌||◌, not, Option, none, some, List, length,
  str_eq, if◌then◌else◌, Result, ok, err, get_elem?,
}
use aipl.Token.{TokenKind, int_lit, int64_lit, float_lit, float32_lit, string_lit, bool_lit}
use aipl.Sx.{Sx, atom, list, is_square, as_symbol}

abbrev pub new_needs_allocator : String
new_needs_allocator =
    "new takes the allocator to make it from, then each field by name: (new S a [x:v y:v]), e.g. (new S (call alloc.default) [x:1 y:2]), or (call alloc.forever) for memory kept until the program exits"

abbrev pub new_names_fields : String
new_names_fields =
    "new is (new S a [x:v y:v]): the struct, the allocator to make it from, then each field by name; a field that starts empty is given its zero, (zero T)"

abbrev pub arr_new_needs_allocator : String
arr_new_needs_allocator =
    "arr.new takes the allocator to make it from: (arr.new T a n), e.g. (arr.new T (call alloc.default) n), or (arr.new T (call alloc.forever) n) for memory kept until the program exits"

abbrev pub arr_of_needs_allocator : String
arr_of_needs_allocator =
    "arr.of takes the allocator to make it from, then the values: (arr.of T a x y ...), e.g. (arr.of i32 (call alloc.default) 1 2 3), or (arr.of i32 a) for an empty array"

abbrev pub arr_new_shape : String
arr_new_shape =
    "arr.new is (arr.new T a n): the element type, the allocator to make the array from, then its length"

abbrev pub when_shape : String
when_shape = "when takes a condition and a body: (when c body...)"

abbrev pub for_shape : String
for_shape = "for is (for i start end body...): i from start up to end, end left out"

-- `Parser::FOR_HAS_NO_STEP`.
abbrev pub for_has_no_step : String
for_has_no_step =
    "a for has no step: (for i start end body...) counts up by one. A number here would be the first statement of the body, not a step; for another step, use while"

abbrev pub is_literal_kind : TokenKind → Bool
is_literal_kind (int_lit _) = true
is_literal_kind (int64_lit _) = true
is_literal_kind (float_lit _ _) = true
is_literal_kind (float32_lit _ _) = true
is_literal_kind (string_lit _) = true
is_literal_kind (bool_lit _) = true
is_literal_kind _ = false

abbrev pub is_int_kind : TokenKind → Bool
is_int_kind (int_lit _) = true
is_int_kind _ = false

abbrev pub test_at : (Sx → Bool) → ℕ → List Sx → Bool
test_at p k xs = elim (get_elem? xs k) [ none ↦ false | some x ↦ p x ]

abbrev pub is_literal : Sx → Bool
is_literal (atom t) = is_literal_kind t.kind
is_literal (list _ _ _) = false

abbrev pub is_int : Sx → Bool
is_int (atom t) = is_int_kind t.kind
is_int (list _ _ _) = false

abbrev pub is_symbol : Sx → Bool
is_symbol x = elim (as_symbol x) [ none ↦ false | some _ ↦ true ]

-- Where a mistake is: at the form, or at the fifth of its items.
pub data Place : Type 0 where
  at_form at_step : Place

abbrev pub alloc_error : Result String String → Option String
alloc_error (ok _) = none
alloc_error (err e) = some e

-- The first mistake in a form's shape, of `n` items. `alloc` is how the module names the functions of
-- std/alloc, or why it cannot use `new`.
unfoldable pub shape_error : Result String String → String → List Sx → Option (Place × String)
shape_error alloc h xs =
    let n = length xs in
    let allocates = str_eq h "new" || str_eq h "arr.new" || str_eq h "arr.of" in
    elim (if allocates then alloc_error alloc else none) [
      | some e ↦ some (at_form, e)
      | none ↦
          if str_eq h "arr.of" && (ltb n 3 || test_at is_literal 2 xs)
          then some (at_form, arr_of_needs_allocator)
          else if str_eq h "new" && n == 2
          then some (at_form, new_needs_allocator)
          else if str_eq h "new" && n == 4 && test_at is_square 3 xs
          then none
          else if str_eq h "new"
          then some (at_form, new_names_fields)
          else if str_eq h "arr.new" && n == 3
          then some (at_form, arr_new_needs_allocator)
          else if str_eq h "arr.new" && not (n == 4)
          then some (at_form, arr_new_shape)
          else if str_eq h "when" && ltb n 2
          then some (at_form, when_shape)
          else if str_eq h "for" && leb 5 n && test_at is_int 4 xs
          then some (at_step, for_has_no_step)
          else if str_eq h "for" && (ltb n 4 || not (test_at is_symbol 1 xs))
          then some (at_form, for_shape)
          else none
    ]
