-- ===== src/Scopes/Tests.antt =====
-- The renaming on a small function, and instances of the theorems.
use aipl.Scopes.Shown.{shown, ends_name}
use aipl.Scopes.Names.{local_char, shown-renamed}
use aipl.Scopes.Fresh.{
  AllDifferent, Declares, nothing, param, declared, opened, closed, Declares-AllDifferent,
}
use aipl.Base.{some, ◌≡◌, refl, [], ◌∷◌, String, List}
use aipl.Base.Dict.{lookup, insert}
use aipl.Text.Decimal.{decimal, decimal_fuel}
use aipl.Token.{TokenKind, Token, symbol, l_paren, r_paren, l_bracket, r_bracket, colon, arrow}
use aipl.Sx.{Sx, atom, list, of_list}
use aipl.Scopes.{
  renamed, declare, declare_name, declare_new, visible_in, push_scope, pop_scope, Scopes,
}
use aipl.Scopes.Walk.{walk}
use aipl.Scopes.Locals.{rename_locals, declare_param, declare_params, empty_scopes, every_third}
use aipl.Scopes.Invariant.{bottom, Renames, Keeps}
use aipl.Scopes.Faithful.{walk-scope_stack, rename_locals-Renames, walk-Keeps}

abbrev tok : TokenKind → Token
tok k = record { kind = k; line = 1; col = 1 }

abbrev sym : String → Sx
sym s = atom (tok (symbol s))

abbrev form : List Sx → Sx
form xs = list (tok l_paren) (of_list xs) (tok r_paren)

abbrev let_x : String → Sx
let_x x = form (sym "let" ∷ sym x ∷ atom (tok colon) ∷ sym "i32" ∷ sym "a" ∷ [])

abbrev block : String → Sx
block x = form (sym "block" ∷ let_x x ∷ sym x ∷ [])

-- `(fn f [a : i32] -> i32 (block (let x : i32 a) x) (block ...))`
abbrev function : String → Sx
function x = form (
    sym "fn"
    ∷ sym "f"
    ∷ list (tok l_bracket) (of_list (sym "a" ∷ atom (tok colon) ∷ sym "i32" ∷ [])) (tok r_bracket)
    ∷ atom (tok arrow)
    ∷ sym "i32"
    ∷ block "x"
    ∷ block x
    ∷ [])

second_is_renamed : rename_locals (function "x") ≡ function "'2.x"
unfolding rename_locals walk declare_params every_third declare declare_name declare_new visible_in
    renamed push_scope pop_scope lookup insert decimal decimal_fuel
second_is_renamed = refl

walk-scope_stack_example : (walk (block "x") empty_scopes).1.stack ≡ [] ∷ []
unfolding lookup
walk-scope_stack_example =
    walk-scope_stack (tok l_paren) (tok r_paren) (of_list (sym "block" ∷ let_x "x" ∷ sym "x" ∷ []))
      empty_scopes (bottom [] [] (λ n v e. cc)) refl

rename_locals-Renames_example : Renames (function "x") (rename_locals (function "x"))
rename_locals-Renames_example = rename_locals-Renames (function "x")

shown-renamed_example : shown (renamed 12 "count") ≡ "count"
unfolding local_char ends_name
shown-renamed_example = shown-renamed 12 "count" refl

-- `x` was declared once, and is declared again where that declaration is not visible.
-- A parameter x, then y in a scope of its own, then y again where it is no longer visible.
abbrev inside : Scopes
inside = (declare_name "y" (push_scope (declare_param (some "x") empty_scopes)).1).1

two_ys : Declares (declare_name "y" (pop_scope inside).1).1 (
    (declare_name "y" (pop_scope inside).1).0
    ∷ (declare_name "y" (push_scope (declare_param (some "x") empty_scopes)).1).0
    ∷ "x"
    ∷ [])
unfolding local_char ends_name visible_in lookup renamed push_scope pop_scope declare_name
    declare_new insert
two_ys =
    declared "y" (closed (declared "y" (opened (param "x" nothing refl refl)) refl refl)) refl refl

Declares-AllDifferent_example : AllDifferent (
    (declare_name "y" (pop_scope inside).1).0
    ∷ (declare_name "y" (push_scope (declare_param (some "x") empty_scopes)).1).0
    ∷ "x"
    ∷ [])
Declares-AllDifferent_example = Declares-AllDifferent two_ys

walk-Keeps_example : Keeps empty_scopes (walk (let_x "x") empty_scopes).1
unfolding lookup
walk-Keeps_example = walk-Keeps (let_x "x") empty_scopes (bottom [] [] (λ n v e. cc))
