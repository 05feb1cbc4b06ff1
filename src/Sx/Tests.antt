-- ===== src/Sx/Tests.antt =====
-- Reader runs on small inputs, and instances of its theorems.
use aipl.Base.{ℕ, ◌≡◌, ◌≢◌, ◌↔◌, refl, [], ◌∷◌, ◌++◌, err, ok, arith}
use aipl.Token.{TokenKind, Token, l_paren, r_paren, l_bracket, r_bracket, symbol, string_lit}
use aipl.Sx.{Sx, atom, list, nil, cons, paren, square, flatten, ends_in_placeholder}
use aipl.Sx.Reader.{
  read, read_one, mismatched, open_placeholder, find_split, read_whole, unexpected_input,
  out_of_fuel,
}
use aipl.Sx.RoundTrip.{IsWell, well_atom, well_list, well_nil, well_cons, read-flatten}
use aipl.Sx.Sound.{Ensures, read_sound, read_one-eq-ok_iff, read_one-ne-out_of_fuel}

abbrev tok : TokenKind → ℕ → Token
tok k c = record { kind = k; line = 1; col = c }

-- `(f [x])`
abbrev form : Sx
form =
    list (tok l_paren 1)
      (cons (atom (tok (symbol "f") 2)) (
        cons (list (tok l_bracket 4) (cons (atom (tok (symbol "x") 5)) nil) (tok r_bracket 6)) nil))
      (tok r_paren 7)

form-IsWell : IsWell form
form-IsWell = well_list paren refl refl (
    well_cons (well_atom refl)
      (well_cons (well_list square refl refl (well_cons (well_atom refl) well_nil)) well_nil))

-- `(]`
mismatch : read_one (tok l_paren 1 ∷ tok r_bracket 2 ∷ []) ≡ err (mismatched (1, 2))
unfolding read_one read_whole read find_split ends_in_placeholder
mismatch = refl

-- `(f "{" x`: the string that ends inside a placeholder is named.
split_string :
    read_one (tok l_paren 1 ∷ tok (string_lit "{") 2 ∷ tok (symbol "x") 6 ∷ [])
    ≡ err (open_placeholder (1, 2))
unfolding read_one read_whole read find_split ends_in_placeholder
split_string = refl

-- `("{")` alone is an ordinary string; the missing bracket is reported.
plain_string :
    read_one (tok l_paren 1 ∷ tok (string_lit "{") 2 ∷ tok r_paren 5 ∷ tok l_paren 6 ∷ [])
    ≡ err (unexpected_input (1, 6))
unfolding read_one read_whole read find_split ends_in_placeholder
plain_string = refl

read-flatten_example : read 20 (flatten form ++ tok r_paren 8 ∷ []) ≡ ok (form, tok r_paren 8 ∷ [])
read-flatten_example =
    read-flatten form 20 (tok r_paren 8 ∷ []) form-IsWell (unfold flatten in omega arith)

read_sound_example :
    Ensures
      (λ (sx, rest). IsWell sx × (tok l_paren 1 ∷ tok r_paren 2 ∷ [] ≡ flatten sx ++ rest))
      (read 5 (tok l_paren 1 ∷ tok r_paren 2 ∷ []))
read_sound_example = read_sound 5 (tok l_paren 1 ∷ tok r_paren 2 ∷ []) (omega arith)

read_one-eq-ok_iff_example :
    (read_one (flatten form) ≡ ok form) ↔ (IsWell form × (flatten form ≡ flatten form))
read_one-eq-ok_iff_example = read_one-eq-ok_iff (flatten form) form

read_one-ne-out_of_fuel_example : read_one (tok l_paren 1 ∷ tok l_bracket 2 ∷ []) ≢ err out_of_fuel
read_one-ne-out_of_fuel_example = read_one-ne-out_of_fuel (tok l_paren 1 ∷ tok l_bracket 2 ∷ [])
