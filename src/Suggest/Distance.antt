-- ===== src/Suggest/Distance.antt =====
-- `edit_distance` of src/parser.rs, and the edit distance by recursion.
use aipl.Base.{ℕ, suc, ◌+◌, ◌≡◌, refl, sym, ap, ◌∙◌, List, [], ◌∷◌, length}
use aipl.Suggest.{min_of, differ, first_row, next_row, rows, last_entry, edit_distance}

-- The edit distance of two texts given from their ends: the last characters are matched or replaced, or
-- one of them is dropped.
unfoldable pub levenshtein : List ℕ → List ℕ → ℕ
levenshtein [] b = length b
levenshtein (x ∷ a) [] = suc (length a)
levenshtein (x ∷ a) (y ∷ b) =
    min_of (min_of (levenshtein a b + differ x y) (levenshtein a (y ∷ b) + 1))
      (levenshtein (x ∷ a) b + 1)

-- A text turned round, before one that is.
unfoldable pub reversed : List ℕ → List ℕ → List ℕ
reversed acc [] = acc
reversed acc (x ∷ xs) = reversed (x ∷ acc) xs

-- The distances of a text to the prefixes of `b` after the one that `q` turns round.
unfoldable later : List ℕ → List ℕ → List ℕ → List ℕ
later p q [] = []
later p q (y ∷ b) = levenshtein p (y ∷ q) ∷ later p (y ∷ q) b

first_row-later : (b q : List ℕ) → first_row (length q) b ≡ length q ∷ later [] q b
unfolding first_row later levenshtein
first_row-later [] q = refl
first_row-later (y ∷ b) q = ap (λ r. length q ∷ r) (first_row-later b (y ∷ q))

next_row-later :
    (ca : ℕ) (p q b : List ℕ)
    → next_row ca (levenshtein p q) (levenshtein (ca ∷ p) q) (later p q b) b ≡ later (ca ∷ p) q b
unfolding next_row later levenshtein
next_row-later ca p q [] = refl
next_row-later ca p q (y ∷ b) =
    ap (λ r. levenshtein (ca ∷ p) (y ∷ q) ∷ r) (next_row-later ca p (y ∷ q) b)

levenshtein-nil : (p : List ℕ) → levenshtein p [] ≡ length p
unfolding levenshtein
levenshtein-nil [] = refl
levenshtein-nil (x ∷ p) = refl

rows-later :
    (a p b : List ℕ)
    → rows (length p) a (length p ∷ later p [] b) b
      ≡ length (reversed p a) ∷ later (reversed p a) [] b
unfolding rows reversed levenshtein
rows-later [] p b = refl
rows-later (ca ∷ a) p b =
    let row : next_row ca (length p) (suc (length p)) (later p [] b) b ≡ later (ca ∷ p) [] b =
      ap (λ n. next_row ca n (suc (length p)) (later p [] b) b) (sym (levenshtein-nil p))
      ∙ next_row-later ca p [] b in
    ap (λ r. rows (suc (length p)) a (suc (length p) ∷ r) b) row ∙ rows-later a (ca ∷ p) b

last_entry-later :
    (p q b : List ℕ) → last_entry (levenshtein p q ∷ later p q b) ≡ levenshtein p (reversed q b)
unfolding last_entry later reversed
last_entry-later p q [] = refl
last_entry-later p q (y ∷ b) = last_entry-later p (y ∷ q) b

-- The row by row computation gives the edit distance of the two names.
pub edit_distance-levenshtein :
    (a b : List ℕ) → edit_distance a b ≡ levenshtein (reversed [] a) (reversed [] b)
unfolding edit_distance
edit_distance-levenshtein a b =
    ap (λ r. last_entry (rows 0 a r b)) (first_row-later b [])
    ∙ (ap last_entry (rows-later a [] b)
        ∙ (ap (λ n. last_entry (n ∷ later (reversed [] a) [] b))
              (sym (levenshtein-nil (reversed [] a)))
            ∙ last_entry-later (reversed [] a) [] b))
