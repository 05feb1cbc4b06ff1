-- ===== src/Scopes/Form.antt =====
-- The arms of `Scopes::walk` of src/scopes.rs: which one a form takes, by its head and its shape.
use aipl.Base.{
  leb, ltb, String, Bool, true, false, ◌&&◌, ◌||◌, none, some, List, ◌∷◌, length, str_eq,
  if◌then◌else◌,
}
use aipl.Token.{TokenKind, colon}
use aipl.Sx.{Sx, atom, list, as_symbol, items, head, is_some_str}

-- The arms of the `match` on a form's head.
pub data Form : Type 0 where
  let_form scope_form if_form while_form counted_form cond_form match_form result_form : Form
  call_form other_form headless_form : Form

abbrev pub colon_kind : TokenKind → Bool
colon_kind colon = true
colon_kind _ = false

abbrev pub is_colon : Sx → Bool
is_colon (atom t) = colon_kind t.kind
is_colon (list _ _ _) = false

-- `items.len() >= 5 && matches!(items[2], ...)`.
abbrev pub declares : List Sx → Bool
declares xs = leb 5 (length xs) && is_third_colon xs
  where
    is_third_colon : List Sx → Bool
    is_third_colon (_ ∷ _ ∷ x ∷ _) = is_colon x
    is_third_colon _ = false

abbrev pub headed_form : String → List Sx → Form
headed_form h xs =
    if str_eq h "let" && declares xs
    then let_form
    else if str_eq h "block"
        || str_eq h "unsafe"
        || str_eq h "defer"
        || str_eq h "req"
        || str_eq h "ens"
        || str_eq h "inv"
    then scope_form
    else if str_eq h "if" && ltb 1 (length xs)
    then if_form
    else if (str_eq h "when" || str_eq h "while") && ltb 1 (length xs)
    then while_form
    else if str_eq h "counted_loop" && leb 5 (length xs)
    then counted_form
    else if str_eq h "cond"
    then cond_form
    else if str_eq h "match" && ltb 1 (length xs)
    then match_form
    else if str_eq h "match_result" && ltb 1 (length xs)
    then result_form
    else if str_eq h "call" || str_eq h "ref"
    then call_form
    else other_form

-- A `[...]` list and a list with no head are walked whole.
abbrev pub form_of : Sx → Form
form_of sx = elim (head sx) [ none ↦ headless_form | some h ↦ headed_form h (items sx) ]

abbrev pub is_else : Sx → Bool
is_else sx = is_some_str (as_symbol sx) "else"
