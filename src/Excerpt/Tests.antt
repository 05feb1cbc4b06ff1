-- ===== src/Excerpt/Tests.antt =====
-- Places in concrete messages.
use aipl.Base.{ℕ, ◌≡◌, refl, none, some, List, [], ◌∷◌, ◌++◌, false}
use aipl.Excerpt.{
  digits, after_digits, number, past_byte, column_at, line_at, place_at, locate_from, locate,
}
use aipl.Excerpt.Sound.{Located, locate-Located}
use aipl.Excerpt.RoundTrip.{has_mark, place, locate-place}

-- `C:a`, a file whose second byte is a colon.
abbrev file_rest : List ℕ
file_rest = b':' ∷ b'a' ∷ []

-- `12`, `7` and `no`.
abbrev twelve : List ℕ
twelve = b'1' ∷ b'2' ∷ []

abbrev seven : List ℕ
seven = b'7' ∷ []

abbrev no : List ℕ
no = b'n' ∷ b'o' ∷ []

found :
    locate (b'C' ∷ b':' ∷ b'a' ∷ b':' ∷ b' ' ∷ b'1' ∷ b'2' ∷ b':' ∷ b'7' ∷ b':' ∷ b' ' ∷ b'n' ∷ [])
    ≡ some (b'C' ∷ b':' ∷ b'a' ∷ [], (12, 7))
unfolding locate locate_from place_at line_at column_at past_byte digits after_digits number
found = refl

-- No file before the place.
no_file : locate (b':' ∷ b' ' ∷ b'1' ∷ b':' ∷ b'7' ∷ b':' ∷ b' ' ∷ []) ≡ none
unfolding locate locate_from place_at line_at column_at past_byte digits after_digits number
no_file = refl

-- No column.
no_column : locate (b'a' ∷ b':' ∷ b' ' ∷ b'1' ∷ b':' ∷ b' ' ∷ b'x' ∷ []) ≡ none
unfolding locate locate_from place_at line_at column_at past_byte digits after_digits number
no_column = refl

plain_file : has_mark file_rest ≡ false
unfolding has_mark
plain_file = refl

locate-place_example :
    locate (b'C' ∷ (file_rest ++ place twelve seven no))
    ≡ some (b'C' ∷ file_rest, (number 0 twelve, number 0 seven))
locate-place_example =
    locate-place twelve seven no (refl, (refl, tt)) refl (refl, tt) refl b'C' file_rest plain_file

locate-Located_example :
    Located
      (b'C' ∷ (file_rest ++ place twelve seven no))
      (locate (b'C' ∷ (file_rest ++ place twelve seven no)))
locate-Located_example = locate-Located (b'C' ∷ (file_rest ++ place twelve seven no))
