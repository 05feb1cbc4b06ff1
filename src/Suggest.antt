-- ===== src/Suggest.antt =====
-- Suggesting a name for a misspelled one: `edit_distance` and `nearest_name` of src/parser.rs.
--
-- A name is the list of its bytes where it is compared.
pub mod Distance
pub mod Nearest
pub mod Tests
use aipl.Base.{
  ℕ, zero, suc, ◌+◌, leb, ltb, ◌==◌, String, str_eq, Bool, true, false, ◌&&◌, ◌||◌, not, Option,
  none, some, List, [], ◌∷◌, length, if◌then◌else◌,
}

abbrev pub min_of : ℕ → ℕ → ℕ
min_of a b = if leb a b then a else b

abbrev pub differ : ℕ → ℕ → ℕ
differ a b = if a == b then 0 else 1

-- The first row: 0 and up to the length.
unfoldable pub first_row : ℕ → List ℕ → List ℕ
first_row n [] = n ∷ []
first_row n (c ∷ b) = n ∷ first_row (suc n) b

-- The inner loop: the new row after its first entry `left`, from the old one after its entry `diag`.
unfoldable pub next_row : ℕ → ℕ → ℕ → List ℕ → List ℕ → List ℕ
next_row ca diag left (up ∷ row) (cb ∷ b) =
    let new = min_of (min_of (diag + differ ca cb) (up + 1)) (left + 1) in
    new ∷ next_row ca up new row b
next_row ca diag left _ _ = []

-- The outer loop, at its `i`th turn.
unfoldable pub rows : ℕ → List ℕ → List ℕ → List ℕ → List ℕ
rows i [] row b = row
rows i (ca ∷ a) [] b = []
rows i (ca ∷ a) (diag ∷ row) b = rows (suc i) a (suc i ∷ next_row ca diag (suc i) row b) b

-- The row's last entry.
unfoldable pub last_entry : List ℕ → ℕ
last_entry [] = 0
last_entry (x ∷ []) = x
last_entry (x ∷ (y ∷ row)) = last_entry (y ∷ row)

unfoldable pub edit_distance : List ℕ → List ℕ → ℕ
edit_distance a b = last_entry (rows 0 a (first_row 0 b) b)
