-- ===== src/Sx.antt =====
-- S-expressions over tokens: src/sexpr.rs. `read` takes the tokens from `*pos` on and returns the
-- form with the tokens after it. `items : Vec<Sx>` is `Items`, the list in a mutual block.
pub mod Reader
pub mod Sound
pub mod RoundTrip
mod Tests
use aipl.Base.{
  ℕ, zero, suc, ◌+◌, ◌*◌, ◌==◌, String, Char, is_code, Bool, true, false, ◌&&◌, not, Option, none,
  some, List, [], ◌∷◌, ◌++◌, length, str_eq, if◌then◌else◌,
}
use aipl.Token.{
  TokenKind, Token, Pos, token_pos, l_paren, r_paren, l_bracket, r_bracket, symbol, string_lit,
}

mutual
  pub data Sx : Type 0 where
    atom : Token → Sx
    -- `(...)` or `[...]`; the tokens are the brackets
    list : Token → Items → Token → Sx

  pub data Items : Type 0 where
    nil : Items
    cons : Sx → Items → Items

abbrev pub to_list : Items → List Sx
to_list nil = []
to_list (cons x xs) = x ∷ to_list xs

abbrev pub of_list : List Sx → Items
of_list [] = nil
of_list (x ∷ xs) = cons x (of_list xs)

pub data Bracket : Type 0 where
  paren square : Bracket

-- How the reader tells tokens apart.
pub data Shape : Type 0 where
  opens : Bracket → Shape
  closes : Bracket → Shape
  plain : Shape

abbrev pub shape : TokenKind → Shape
shape l_paren = opens paren
shape l_bracket = opens square
shape r_paren = closes paren
shape r_bracket = closes square
shape _ = plain

-- Appends this form's tokens.
unfoldable mutual
  pub flatten : Sx → List Token
  flatten (atom t) = t ∷ []
  flatten (list opening items close) = opening ∷ (flatten_items items ++ close ∷ [])

  pub flatten_items : Items → List Token
  flatten_items nil = []
  flatten_items (cons x xs) = flatten x ++ flatten_items xs

abbrev pub kind_symbol : TokenKind → Option String
kind_symbol (symbol s) = some s
kind_symbol _ = none

abbrev pub as_symbol : Sx → Option String
as_symbol (atom t) = kind_symbol t.kind
as_symbol (list _ _ _) = none

abbrev pub is_l_paren : TokenKind → Bool
is_l_paren l_paren = true
is_l_paren _ = false

abbrev pub is_l_bracket : TokenKind → Bool
is_l_bracket l_bracket = true
is_l_bracket _ = false

-- A `(...)` list (not `[...]`).
abbrev pub is_paren : Sx → Bool
is_paren (atom _) = false
is_paren (list opening _ _) = is_l_paren opening.kind

-- A `[...]` list.
abbrev pub is_square : Sx → Bool
is_square (atom _) = false
is_square (list opening _ _) = is_l_bracket opening.kind

abbrev pub items : Sx → List Sx
items (atom _) = []
items (list _ xs _) = to_list xs

abbrev pub first_symbol : List Sx → Option String
first_symbol [] = none
first_symbol (x ∷ _) = as_symbol x

-- The head symbol of a `(...)` list.
abbrev pub head : Sx → Option String
head sx = if is_paren sx then first_symbol (items sx) else none

abbrev pub position : Sx → Pos
position (atom t) = token_pos t
position (list opening _ _) = token_pos opening

abbrev pub is_some_str : Option String → String → Bool
is_some_str none _ = false
is_some_str (some s) name = str_eq s name

-- Where the first `(name ...)` form is, not looking inside `[...]` lists.
unfoldable mutual
  pub find_head : Sx → String → Option Pos
  find_head (atom _) name = none
  find_head (list opening xs close) name = elim (is_paren (list opening xs close)) [
    | false ↦ none
    | true ↦
        if is_some_str (head (list opening xs close)) name
        then some (token_pos opening)
        else find_head_items xs name
  ]

  pub find_head_items : Items → String → Option Pos
  find_head_items nil name = none
  find_head_items (cons x xs) name =
      let later = find_head_items xs name in
      elim (find_head x name) [ some p ↦ some p | none ↦ later ]

-- A symbol atom with `text` at the position of `at`.
abbrev pub symbol_at : String → Sx → Sx
symbol_at text at =
    let (line, col) = position at in atom (record { kind = symbol text; line = line; col = col })

-- Whether a string's last `{` placeholder is never closed: the loop of `ends_in_placeholder` over the
-- characters left, with `opening` (a brace is one byte, and no other byte of UTF-8 is one).
abbrev pub next_is : String → ℕ → Bool
next_is String.[] n = false
next_is (String.◌∷◌ c _) n = is_code c n

unfoldable pub placeholder_loop : Bool → String → Bool
placeholder_loop opening String.[] = opening
placeholder_loop opening (String.◌∷◌ c String.[]) =
    if is_code c b'{' then true else if is_code c b'}' && opening then false else opening
placeholder_loop opening (String.◌∷◌ c (String.◌∷◌ d rest)) =
    let skipped = placeholder_loop opening rest in
    let on = placeholder_loop true (String.◌∷◌ d rest) in
    let off = placeholder_loop false (String.◌∷◌ d rest) in
    let same = placeholder_loop opening (String.◌∷◌ d rest) in
    if is_code c b'{' && (not opening && is_code d b'{')
    then skipped
    else if is_code c b'{'
    then on
    else if is_code c b'}' && opening
    then off
    else if is_code c b'}' && is_code d b'}'
    then skipped
    else same

unfoldable pub ends_in_placeholder : String → Bool
unfolding placeholder_loop
ends_in_placeholder s = placeholder_loop false s
