-- ===== src/Excerpt.antt =====
-- The place a line of a message names: `locate` of src/excerpt.rs. A line is the list of its bytes.
pub mod RoundTrip
pub mod Sound
pub mod Tests
use aipl.Base.{
  ℕ, ◌+◌, ◌-◌, ◌*◌, leb, ◌==◌, Bool, true, false, ◌&&◌, Option, none, some, List, [], ◌∷◌, ◌++◌,
  length, if◌then◌else◌,
}

abbrev pub is_ascii_digit : ℕ → Bool
is_ascii_digit b = leb b'0' b && leb b b'9'

-- The digits at the start, and what follows them.
unfoldable pub digits : List ℕ → List ℕ
digits [] = []
digits (x ∷ xs) = let rest = digits xs in if is_ascii_digit x then x ∷ rest else []

unfoldable pub after_digits : List ℕ → List ℕ
after_digits [] = []
after_digits (x ∷ xs) = let rest = after_digits xs in if is_ascii_digit x then rest else x ∷ xs

-- `parse` of at most nine digits.
unfoldable pub number : ℕ → List ℕ → ℕ
number n [] = n
number n (d ∷ ds) = number (n * 10 + (d - b'0')) ds

-- What follows a byte that must come next.
unfoldable pub past_byte : ℕ → List ℕ → Option (List ℕ)
past_byte mark [] = none
past_byte mark (x ∷ xs) = if x == mark then some xs else none

abbrev pub one_to_nine : List ℕ → Bool
one_to_nine ds = leb 1 (length ds) && leb (length ds) 9

-- The column, at the first byte that may be a digit of it.
unfoldable pub column_at : List ℕ → Option ℕ
column_at r =
    let end : Option (List ℕ) = elim (past_byte b':' (after_digits r)) [
      | none ↦ none
      | some s ↦ past_byte b' ' s
    ] in
    if one_to_nine (digits r)
    then elim end [ none ↦ none | some _ ↦ some (number 0 (digits r)) ]
    else none

-- The line and the column, at the first byte that may be a digit of the line.
unfoldable pub line_at : List ℕ → Option (ℕ × ℕ)
line_at r =
    let col : Option ℕ = elim (past_byte b':' (after_digits r)) [
      | none ↦ none
      | some s ↦ column_at s
    ] in
    if one_to_nine (digits r)
    then elim col [ none ↦ none | some c ↦ some (number 0 (digits r), c) ]
    else none

-- One turn of the loop: the line and the column, where a place stands here.
unfoldable pub place_at : List ℕ → Option (ℕ × ℕ)
place_at r = elim (past_byte b':' r) [
  | none ↦ none
  | some s ↦ elim (past_byte b' ' s) [ none ↦ none | some t ↦ line_at t ]
]

-- The loop, after the bytes `file`.
unfoldable pub locate_from : List ℕ → List ℕ → Option (List ℕ × (ℕ × ℕ))
locate_from file [] = none
locate_from file (x ∷ xs) =
    let later = locate_from (file ++ (x ∷ [])) xs in
    elim (place_at (x ∷ xs)) [ none ↦ later | some p ↦ some (file, p) ]

unfoldable pub locate : List ℕ → Option (List ℕ × (ℕ × ℕ))
locate [] = none
locate (x ∷ xs) = locate_from (x ∷ []) xs
