-- ===== src/Suggest/Tests.antt =====
-- Suggestions at concrete names.
use aipl.Base.{ℕ, ◌≡◌, refl, some, none, List, [], ◌∷◌, length}
use aipl.Suggest.{first_row, next_row, rows, last_entry, edit_distance}
use aipl.Suggest.Distance.{levenshtein, reversed, edit_distance-levenshtein}
use aipl.Suggest.Nearest.{
  same_bytes, squeeze, shared, bytes_le, key_le, key_of, near_keys, least, edits_allowed,
  nearest_name, Names, nearest_name-Names,
}

abbrev lenght : List ℕ
lenght = b'l' ∷ b'e' ∷ b'n' ∷ b'g' ∷ b'h' ∷ b't' ∷ []

abbrev length_name : List ℕ
length_name = b'l' ∷ b'e' ∷ b'n' ∷ b'g' ∷ b't' ∷ b'h' ∷ []

abbrev set_name : List ℕ
set_name = b's' ∷ b'e' ∷ b't' ∷ []

-- A swap of two letters is two edits.
swapped : edit_distance lenght length_name ≡ 2
unfolding edit_distance first_row next_row rows last_entry
swapped = refl

dropped : edit_distance set_name (b's' ∷ b't' ∷ []) ≡ 1
unfolding edit_distance first_row next_row rows last_entry
dropped = refl

-- `set` is `set!`, not `get`; both are one edit away.
alike_wins :
    nearest_name set_name ((b'g' ∷ b'e' ∷ b't' ∷ []) ∷ (b's' ∷ b'e' ∷ b't' ∷ b'!' ∷ []) ∷ [])
    ≡ some (b's' ∷ b'e' ∷ b't' ∷ b'!' ∷ [])
unfolding nearest_name edits_allowed least near_keys key_of key_le squeeze shared same_bytes
    bytes_le edit_distance first_row next_row rows last_entry
alike_wins = refl

-- `lt_u` is `ltu`, and a name of two bytes gets no suggestion.
underscores :
    nearest_name (b'l' ∷ b't' ∷ b'_' ∷ b'u' ∷ []) ((b'l' ∷ b't' ∷ b'u' ∷ []) ∷ [])
    ≡ some (b'l' ∷ b't' ∷ b'u' ∷ [])
unfolding nearest_name edits_allowed least near_keys key_of key_le squeeze shared same_bytes
    bytes_le edit_distance first_row next_row rows last_entry
underscores = refl

too_short : nearest_name (b'l' ∷ b't' ∷ []) ((b'l' ∷ b'e' ∷ []) ∷ []) ≡ none
unfolding nearest_name edits_allowed squeeze
too_short = refl

edit_distance-levenshtein_example :
    edit_distance lenght length_name ≡ levenshtein (reversed [] lenght) (reversed [] length_name)
edit_distance-levenshtein_example = edit_distance-levenshtein lenght length_name

lenght_allowed : edits_allowed (length (squeeze lenght)) ≡ some 2
unfolding edits_allowed squeeze
lenght_allowed = refl

nearest_name-Names_example :
    Names 2 lenght
      (set_name ∷ length_name ∷ lenght ∷ [])
      (nearest_name lenght (set_name ∷ length_name ∷ lenght ∷ []))
nearest_name-Names_example =
    nearest_name-Names 2 lenght (set_name ∷ length_name ∷ lenght ∷ []) lenght_allowed
