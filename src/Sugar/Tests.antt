-- ===== src/Sugar/Tests.antt =====
-- The rewriting of small forms, and an instance of the theorem.
use aipl.Base.{◌≡◌, ◌≢◌, refl, String, Bool, true, false, List, [], ◌∷◌, Result, ok, err}
use aipl.Token.{TokenKind, Token, symbol, l_paren, r_paren}
use aipl.Sx.{Sx, atom, list, of_list}
use aipl.Sugar.Shape.{shape_error, for_shape}
use aipl.Sugar.Rewrite.{Failure, mistake, panic, rewrite, rewrite_form, int_at}
use aipl.Sugar.Total.{full_atom, full_list, full_nil, full_cons, rewrite-ne-panic}

abbrev tok : TokenKind → Token
tok k = record { kind = k; line = 1; col = 1 }

abbrev sym : String → Sx
sym s = atom (tok (symbol s))

abbrev form : List Sx → Sx
form xs = list (tok l_paren) (of_list xs) (tok r_paren)

abbrev place : Sx → String → String
place _ text = text

abbrev run : Sx → Result Failure (Sx × Bool)
run = rewrite (ok "alloc.") place

a_for :
    run (form (sym "for" ∷ sym "i" ∷ sym "a" ∷ sym "b" ∷ sym "c" ∷ []))
    ≡ ok (
      form (
          sym "counted_loop"
          ∷ sym "i"
          ∷ sym "a"
          ∷ form (sym "-" ∷ sym "b" ∷ int_at 1 (1, 1) ∷ [])
          ∷ int_at 1 (1, 1)
          ∷ sym "c"
          ∷ []),
      false,
    )
unfolding rewrite rewrite_form shape_error
a_for = refl

an_and :
    run (form (sym "and" ∷ sym "a" ∷ sym "b" ∷ sym "c" ∷ []))
    ≡ ok (form (sym "and" ∷ sym "a" ∷ form (sym "and" ∷ sym "b" ∷ sym "c" ∷ []) ∷ []), false)
unfolding rewrite rewrite_form shape_error
an_and = refl

a_new_array :
    run (form (sym "arr.new" ∷ sym "T" ∷ sym "a" ∷ sym "n" ∷ []))
    ≡ ok
        (form (sym "call" ∷ form (sym "alloc.array" ∷ sym "T" ∷ []) ∷ sym "a" ∷ sym "n" ∷ []), true)
unfolding rewrite rewrite_form shape_error
a_new_array = refl

no_variable : run (form (sym "for" ∷ form [] ∷ [])) ≡ err (mistake for_shape)
unfolding rewrite rewrite_form shape_error
no_variable = refl

-- The arithmetic on the number of items overflows at `()`.
empty_list : run (form []) ≡ err panic
unfolding rewrite rewrite_form shape_error
empty_list = refl

rewrite-ne-panic_example : rewrite (ok "alloc.") place (form (sym "arr.of" ∷ [])) ≢ err panic
rewrite-ne-panic_example =
    rewrite-ne-panic (ok "alloc.") place (form (sym "arr.of" ∷ []))
      (full_list _ _ _ _ (full_cons _ _ (full_atom _) full_nil))
