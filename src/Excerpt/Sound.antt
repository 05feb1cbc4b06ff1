-- ===== src/Excerpt/Sound.antt =====
-- Where `locate` of src/excerpt.rs finds a place.
use aipl.Base.{
  ℕ, true, Option, none, some, List, [], ◌∷◌, ◌++◌, ◌≡◌, inl, inr, refl, ap, ◌∙◌, arith,
  append_assoc, Bool-cases, Option-cases, ==_iff, subst,
}
use aipl.Excerpt.{
  is_ascii_digit, digits, after_digits, number, past_byte, one_to_nine, column_at, line_at,
  place_at, locate_from, locate,
}
use aipl.Excerpt.RoundTrip.{Digits}

past_byte-eq-some : (m : ℕ) (r s : List ℕ) → past_byte m r ≡ some s → r ≡ m ∷ s
unfolding past_byte
past_byte-eq-some m [] s h = cc
past_byte-eq-some m (x ∷ xs) s h = ground (arith, ==_iff x m)

digits-split : (r : List ℕ) → r ≡ digits r ++ after_digits r
unfolding digits after_digits
digits-split [] = refl
digits-split (x ∷ xs) = elim (Bool-cases (is_ascii_digit x)) [
  | inl e ↦ rw e (ap (λ r. x ∷ r) (digits-split xs))
  | inr e ↦ rw e refl
]

digits-Digits : (r : List ℕ) → Digits (digits r)
unfolding digits
digits-Digits [] = tt
digits-Digits (x ∷ xs) = elim (Bool-cases (is_ascii_digit x)) [
  | inl e ↦ rw e (e, digits-Digits xs)
  | inr e ↦ rw e tt
]

-- A text starts with digits as a number is written, and goes on.
abbrev pub Numbered : List ℕ → ℕ → List ℕ → Type 0
Numbered r n rest =
    (ds : List ℕ) × (r ≡ ds ++ (b':' ∷ rest))
    × Digits ds
    × (one_to_nine ds ≡ true)
    × (number 0 ds ≡ n)

numbered :
    (r s : List ℕ)
    → one_to_nine (digits r) ≡ true
    → past_byte b':' (after_digits r) ≡ some s
    → Numbered r (number 0 (digits r)) s
numbered r s short h = (
  digits r,
  digits-split r ∙ ap (λ t. digits r ++ t) (past_byte-eq-some b':' (after_digits r) s h),
  digits-Digits r,
  short,
  refl,
)

-- The column found is one that stands there, as a place ends.
abbrev pub Column : List ℕ → Option ℕ → Type 0
Column r none = Unit
Column r (some c) = (text : List ℕ) × Numbered r c (b' ' ∷ text)

column_at-Column : (r : List ℕ) → Column r (column_at r)
unfolding column_at
column_at-Column r = elim (Bool-cases (one_to_nine (digits r))) [
  | inr e ↦ rw e tt
  | inl e ↦ elim (Option-cases (past_byte b':' (after_digits r))) [
    | inl h ↦ rw (e, h) tt
    | inr (s, h) ↦ elim (Option-cases (past_byte b' ' s)) [
      | inl g ↦ rw (e, h, g) tt
      | inr (t, g) ↦
          rw (e, h, g)
            (
              t,
              subst (λ s. Numbered r (number 0 (digits r)) s) (past_byte-eq-some b' ' s t g)
                  (numbered r s e h),
            )
    ]
  ]
]

abbrev pub Place : List ℕ → Option (ℕ × ℕ) → Type 0
Place r none = Unit
Place r (some (n, c)) = (s : List ℕ) × Numbered r n s × Column s (some c)

line_at-Place : (r : List ℕ) → Place r (line_at r)
unfolding line_at
line_at-Place r = elim (Bool-cases (one_to_nine (digits r))) [
  | inr e ↦ rw e tt
  | inl e ↦ elim (Option-cases (past_byte b':' (after_digits r))) [
    | inl h ↦ rw (e, h) tt
    | inr (s, h) ↦ elim (Option-cases (column_at s)) [
      | inl g ↦ rw (e, h, g) tt
      | inr (c, g) ↦
          rw (e, h, g) (s, numbered r s e h, subst (λ o. Column s o) g (column_at-Column s))
    ]
  ]
]

-- What stands at a place: a colon and a space, the line, a colon, the column, a colon and a space.
abbrev pub At : List ℕ → Option (ℕ × ℕ) → Type 0
At r none = Unit
At r (some p) = (s : List ℕ) × (r ≡ b':' ∷ b' ' ∷ s) × Place s (some p)

place_at-At : (r : List ℕ) → At r (place_at r)
unfolding place_at
place_at-At r = elim (Option-cases (past_byte b':' r)) [
  | inl h ↦ rw (h, At, place_at) tt
  | inr (s, h) ↦ elim (Option-cases (past_byte b' ' s)) [
    | inl g ↦ rw (h, g, At, place_at) tt
    | inr (t, g) ↦ elim (Option-cases (line_at t)) [
      | inl k ↦ rw (h, g, k, At, place_at) tt
      | inr (p, k) ↦
          rw (h, g, k, At, place_at)
            (
              t,
              past_byte-eq-some b':' r s h ∙ ap (λ u. b':' ∷ u) (past_byte-eq-some b' ' s t g),
              subst (λ o. Place t o) k (line_at-Place t),
            )
    ]
  ]
]

-- The text is the file, and the rest of it is a place and what follows.
abbrev pub Located : List ℕ → Option (List ℕ × (ℕ × ℕ)) → Type 0
Located l none = Unit
Located l (some (file, p)) = (r : List ℕ) × (l ≡ file ++ r) × At r (some p)

locate_from-Located : (file xs : List ℕ) → Located (file ++ xs) (locate_from file xs)
unfolding locate_from
locate_from-Located file [] = tt
locate_from-Located file (x ∷ xs) = elim (Option-cases (place_at (x ∷ xs))) [
  | inl h ↦
      rw (h, Located, locate_from)
        (subst (λ l. Located l (locate_from (file ++ (x ∷ [])) xs)) (append_assoc file (x ∷ []) xs)
          (locate_from-Located (file ++ (x ∷ [])) xs))
  | inr (p, h) ↦
      rw (h, Located, locate_from)
        (x ∷ xs, refl, subst (λ o. At (x ∷ xs) o) h (place_at-At (x ∷ xs)))
]

-- A place that is found in a text stands in it: the text is the file named, a colon and a space, one to
-- nine digits that write the line, a colon, one to nine digits that write the column, a colon and a
-- space, and what follows.
pub locate-Located : (l : List ℕ) → Located l (locate l)
unfolding locate
locate-Located [] = tt
locate-Located (x ∷ xs) = locate_from-Located (x ∷ []) xs
