-- ===== src/Layout/Offsets.antt =====
-- Where the slots of a union held by value lie: `sum_layout` of src/checker.rs.
use aipl.Base.{ℕ, ◌+◌, ◌%◌, ◌≤◌, ◌≡◌, List, [], ◌∷◌, All, arith}
use aipl.Ast.Expr.{AiplType}
use aipl.Layout.Sums.{align_up, slot_align, place_slots, place_end, layout_of}
use aipl.Layout.Aligned.{is_4, align_up-le, align_up-mod, slot_align-IsAlign, slots_align-IsAlign}

-- Each slot lies at a multiple of its size, past the slots before it and before the end.
abbrev pub Placed : ℕ → List AiplType → List ℕ → Type 0
Placed end [] [] = Unit
Placed end (t ∷ ts) (at ∷ later) =
    (at % slot_align t ≡ 0)
    × (at + slot_align t ≤ end)
    × All (λ p. at + slot_align t ≤ p) later
    × Placed end ts later
Placed end _ _ = ⊥

place_end-le : (ts : List AiplType) (offset : ℕ) → offset ≤ place_end offset ts
unfolding place_end
place_end-le [] offset = omega arith
place_end-le (t ∷ ts) offset = omega (
  arith,
  align_up-le offset (slot_align-IsAlign t),
  place_end-le ts (align_up offset (slot_align t) + slot_align t),
)

place_slots-le :
    (ts : List AiplType) (low offset : ℕ)
    → low ≤ offset
    → All (λ p. low ≤ p) (place_slots offset ts)
unfolding place_slots
place_slots-le [] low offset h = tt
place_slots-le (t ∷ ts) low offset h =
    let up = align_up-le offset (slot_align-IsAlign t) in
    (
      omega arith,
      place_slots-le ts low (align_up offset (slot_align t) + slot_align t) (omega arith),
    )

place_slots-Placed :
    (ts : List AiplType) (offset end : ℕ)
    → place_end offset ts ≤ end
    → Placed end ts (place_slots offset ts)
unfolding place_slots place_end
place_slots-Placed [] offset end h = tt
place_slots-Placed (t ∷ ts) offset end h =
    let at = align_up offset (slot_align t) in
    let bound = place_end-le ts (at + slot_align t) in
    (
      align_up-mod offset (slot_align-IsAlign t),
      omega arith,
      place_slots-le ts (at + slot_align t) (at + slot_align t) (omega arith),
      place_slots-Placed ts (at + slot_align t) end h,
    )

-- In the layout of a union held by value, each slot lies at a multiple of its size, the slots do not
-- overlap, and they lie inside the union's size.
pub layout_of-Placed :
    (kinds : List (List AiplType))
    → Placed (layout_of kinds).size (layout_of kinds).slots (layout_of kinds).offsets
unfolding layout_of
layout_of-Placed kinds = place_slots-Placed _ 0 _ (align_up-le _ (slots_align-IsAlign 4 _ is_4))
