-- ===== src/Excerpt/RoundTrip.antt =====
-- A place as a message writes it, and `locate` of src/excerpt.rs.
use aipl.Base.{
  ℕ, ◌==◌, Bool, true, false, ◌&&◌, ◌||◌, none, some, List, [], ◌∷◌, ◌++◌, ◌≡◌, refl, sym, ap, ◌∙◌,
  arith, All, append_assoc, append-nil,
}
use aipl.Excerpt.{
  is_ascii_digit, digits, after_digits, number, past_byte, one_to_nine, column_at, line_at,
  place_at, locate_from, locate,
}

-- Whether a colon with a space after it stands in a text.
unfoldable pub has_mark : List ℕ → Bool
has_mark [] = false
has_mark (x ∷ []) = false
has_mark (x ∷ (y ∷ r)) = (x == b':' && y == b' ') || has_mark (y ∷ r)

-- How a message writes a place.
abbrev pub end_of : List ℕ → List ℕ → List ℕ
end_of col text = col ++ (b':' ∷ b' ' ∷ text)

abbrev pub place : List ℕ → List ℕ → List ℕ → List ℕ
place line col text = b':' ∷ b' ' ∷ (line ++ (b':' ∷ end_of col text))

abbrev pub Digits : List ℕ → Type 0
Digits ds = All (λ d. is_ascii_digit d ≡ true) ds

digits-append : (ds r : List ℕ) → Digits ds → digits (ds ++ (b':' ∷ r)) ≡ ds
unfolding digits
digits-append [] r h = refl
digits-append (d ∷ ds) r (h, hs) = rw (h, digits-append ds r hs) refl

after_digits-append : (ds r : List ℕ) → Digits ds → after_digits (ds ++ (b':' ∷ r)) ≡ b':' ∷ r
unfolding after_digits
after_digits-append [] r h = refl
after_digits-append (d ∷ ds) r (h, hs) = rw (h, after_digits-append ds r hs) refl

column_at-end_of :
    (col text : List ℕ)
    → Digits col
    → one_to_nine col ≡ true
    → column_at (end_of col text) ≡ some (number 0 col)
unfolding column_at past_byte
column_at-end_of col text hc short =
    rw (digits-append col (b' ' ∷ text) hc, after_digits-append col (b' ' ∷ text) hc, short)
      (ap (λ d. some (number 0 d)) (digits-append col (b' ' ∷ text) hc))

place_at-place :
    (line col text : List ℕ)
    → Digits line
    → one_to_nine line ≡ true
    → Digits col
    → one_to_nine col ≡ true
    → place_at (place line col text) ≡ some (number 0 line, number 0 col)
unfolding place_at line_at past_byte
place_at-place line col text hl sl hc sc =
    rw
      (
        digits-append line (end_of col text) hl,
        after_digits-append line (end_of col text) hl,
        sl,
        column_at-end_of col text hc sc,
      )
      (ap (λ d. some (number 0 d, number 0 col)) (digits-append line (end_of col text) hl))

place_at-none :
    (x y : ℕ) (r : List ℕ) → (x == b':' && y == b' ') ≡ false → place_at (x ∷ (y ∷ r)) ≡ none
unfolding place_at past_byte
place_at-none x y r h = ground arith

-- A turn of the loop that finds a place.
locate_from-found :
    (before : List ℕ) (x : ℕ) (r : List ℕ) (p : ℕ × ℕ)
    → place_at (x ∷ r) ≡ some p
    → locate_from before (x ∷ r) ≡ some (before, p)
unfolding locate_from
locate_from-found before x r p h = rw (h, locate_from) refl

-- A turn of the loop that finds no place.
locate_from-next :
    (before : List ℕ) (x y : ℕ) (r : List ℕ)
    → (x == b':' && y == b' ') ≡ false
    → locate_from before (x ∷ (y ∷ r)) ≡ locate_from (before ++ (x ∷ [])) (y ∷ r)
unfolding locate_from
locate_from-next before x y r h = rw (place_at-none x y r h, locate_from) refl

module _ (line col text : List ℕ) (hl : Digits line) (sl : one_to_nine line ≡ true)
    (hc : Digits col) (sc : one_to_nine col ≡ true) where
  locate_from-place :
      (before file : List ℕ)
      → has_mark file ≡ false
      → locate_from before (file ++ place line col text)
        ≡ some (before ++ file, (number 0 line, number 0 col))
  unfolding locate_from has_mark
  locate_from-place before [] plain =
      locate_from-found before b':' (b' ' ∷ (line ++ (b':' ∷ end_of col text))) _
        (place_at-place line col text hl sl hc sc)
      ∙ ap (λ f. some (f, (number 0 line, number 0 col))) (sym (append-nil before))
  locate_from-place before (x ∷ []) plain =
      locate_from-next before x b':' (b' ' ∷ (line ++ (b':' ∷ end_of col text))) (ground arith)
      ∙ (locate_from-place (before ++ (x ∷ [])) [] refl
          ∙ ap (λ f. some (f, (number 0 line, number 0 col))) (append-nil (before ++ (x ∷ []))))
  locate_from-place before (x ∷ (y ∷ f)) plain =
      locate_from-next before x y (f ++ place line col text) (ground arith)
      ∙ (locate_from-place (before ++ (x ∷ [])) (y ∷ f) (ground arith)
          ∙ ap (λ g. some (g, (number 0 line, number 0 col)))
              (append_assoc before (x ∷ []) (y ∷ f)))

  -- The place at the start of a line of a message, its line and its column of one to nine digits each,
  -- is found with the file before it, where no colon with a space after it stands in the file past its
  -- first byte.
  pub locate-place :
      (x : ℕ) (file : List ℕ)
      → has_mark file ≡ false
      → locate (x ∷ (file ++ place line col text)) ≡ some (x ∷ file, (number 0 line, number 0 col))
  unfolding locate
  locate-place x file plain = locate_from-place (x ∷ []) file plain
