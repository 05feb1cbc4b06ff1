-- ===== src/Layout/Aligned.antt =====
-- Sizes and alignments in memory: `layout_at` of src/checker.rs.
use aipl.Base.{
  ℕ, zero, suc, ◌+◌, ◌≤◌, ◌%◌, ◌≡◌, refl, leb, true, false, Option, none, some, List, [], ◌∷◌,
  Result, ok, err, subst, sym, length, arith, if◌then◌else◌, String,
}
use aipl.Base.Outcome.{Holds, Holds->>=, Holds-any}
use aipl.Base.Dict.{lookup}
use aipl.Ast.Expr.{
  u8, i8, u16, i16, AiplType, i32, i64, f32, f64, bool, str, void, ptr, struct, result_type, array,
  fn, enum, union, narrow,
}
use aipl.Ast.Defs.{StructField, StructDef}
use aipl.Layout.Sums.{SumLayout, align_up, max_of, slot_align, slots_align, layout_of}
use aipl.Layout.Types.{
  Structs, max_scalars, LayoutError, unsupported, result_layout, result_sum, sum_layout,
  variant_kinds, scalars, value_struct,
}
use aipl.Layout.Extents.{Extent, place_fields, layout_step, layout_at}

pub data IsAlign : ℕ → Type 0 where
  is_1 : IsAlign 1
  is_2 : IsAlign 2
  is_4 : IsAlign 4
  is_8 : IsAlign 8

pub align_up-le : (x : ℕ) {a : ℕ} → IsAlign a → x ≤ align_up x a
unfolding align_up
align_up-le x is_1 = omega arith
align_up-le x is_2 = omega arith
align_up-le x is_4 = omega arith
align_up-le x is_8 = omega arith

pub align_up-mod : (x : ℕ) {a : ℕ} → IsAlign a → align_up x a % a ≡ 0
unfolding align_up
align_up-mod x is_1 = omega arith
align_up-mod x is_2 = omega arith
align_up-mod x is_4 = omega arith
align_up-mod x is_8 = omega arith

max_of-both : (P : ℕ → Type 0) (a b : ℕ) → P a → P b → P (max_of a b)
max_of-both P a b p q = elim (leb a b) as (λ t. P (if t then b else a)) [ true ↦ q | false ↦ p ]

pub max_of-IsAlign : {a b : ℕ} → IsAlign a → IsAlign b → IsAlign (max_of a b)
max_of-IsAlign i j = max_of-both IsAlign _ _ i j

-- The larger of two alignments is a multiple of both.
pub max_of-mod : {a b : ℕ} → IsAlign a → IsAlign b → (max_of a b % a ≡ 0) × (max_of a b % b ≡ 0)
max_of-mod is_1 is_1 = (refl, refl)
max_of-mod is_1 is_2 = (refl, refl)
max_of-mod is_1 is_4 = (refl, refl)
max_of-mod is_1 is_8 = (refl, refl)
max_of-mod is_2 is_1 = (refl, refl)
max_of-mod is_2 is_2 = (refl, refl)
max_of-mod is_2 is_4 = (refl, refl)
max_of-mod is_2 is_8 = (refl, refl)
max_of-mod is_4 is_1 = (refl, refl)
max_of-mod is_4 is_2 = (refl, refl)
max_of-mod is_4 is_4 = (refl, refl)
max_of-mod is_4 is_8 = (refl, refl)
max_of-mod is_8 is_1 = (refl, refl)
max_of-mod is_8 is_2 = (refl, refl)
max_of-mod is_8 is_4 = (refl, refl)
max_of-mod is_8 is_8 = (refl, refl)

pub slot_align-IsAlign : (t : AiplType) → IsAlign (slot_align t)
unfolding slot_align
slot_align-IsAlign i64 = is_8
slot_align-IsAlign f64 = is_8
slot_align-IsAlign _ = is_4

pub slots_align-IsAlign : (a : ℕ) (ts : List AiplType) → IsAlign a → IsAlign (slots_align a ts)
unfolding slots_align
slots_align-IsAlign a [] i = i
slots_align-IsAlign a (t ∷ ts) i =
    slots_align-IsAlign (max_of a (slot_align t)) ts (max_of-IsAlign i (slot_align-IsAlign t))

-- The size is a multiple of the alignment, which is 1, 2, 4 or 8.
abbrev pub Sized : Extent → Type 0
Sized e = IsAlign e.1 × (e.0 % e.1 ≡ 0)

pub layout_of-Sized :
    (kinds : List (List AiplType)) → Sized ((layout_of kinds).size, (layout_of kinds).align)
unfolding layout_of
layout_of-Sized kinds = let i = slots_align-IsAlign 4 _ is_4 in (i, align_up-mod _ i)

-- Every union held by value has the layout of some slot kinds.
abbrev pub Laid : Structs → Type 0
Laid st =
    (n : String) (l : SumLayout)
    → lookup n st.by_value ≡ some l
    → (kinds : List (List AiplType)) × (l ≡ layout_of kinds)

-- A result held by value has the layout of some slot kinds.
abbrev FromKinds : Option SumLayout → Type 0
FromKinds none = Unit
FromKinds (some l) = (kinds : List (List AiplType)) × (l ≡ layout_of kinds)

abbrev IsLayout : SumLayout → Type 0
IsLayout l = (kinds : List (List AiplType)) × (l ≡ layout_of kinds)

result_layout-FromKinds :
    (fuel : ℕ) (st : Structs) (a b : AiplType) → Holds FromKinds (result_layout fuel st a b)
unfolding result_layout result_sum sum_layout
result_layout-FromKinds fuel st a b =
    Holds->>= IsLayout FromKinds (sum_layout (scalars fuel st) _) _
      (Holds->>= (λ _. Unit {0}) IsLayout (variant_kinds (scalars fuel st) _) _ (Holds-any _)
        (λ kinds _. (kinds, refl)))
      (λ l good.
        elim (leb (length (l.slots)) max_scalars) as (λ t. FromKinds (if t then some l else none)) [
          | true ↦ good
          | false ↦ tt
        ])

IsLayout-Sized : (l : SumLayout) → IsLayout l → Sized (l.size, l.align)
IsLayout-Sized l (kinds, e) = subst (λ m. Sized (m.size, m.align)) (sym e) (layout_of-Sized kinds)

module _ (extent : AiplType → Result LayoutError Extent)
    (sized : (t : AiplType) → Holds Sized (extent t)) where
  pub place_fields-IsAlign :
      (fs : List StructField) (offset max_align : ℕ)
      → IsAlign max_align
      → Holds (λ e. IsAlign e.1) (place_fields extent offset max_align fs)
  unfolding place_fields
  place_fields-IsAlign [] offset max_align i = i
  place_fields-IsAlign (f ∷ fs) offset max_align i =
      Holds->>= Sized (λ e. IsAlign e.1) (extent (f.field_ty)) _ (sized (f.field_ty))
        (λ e s.
          place_fields-IsAlign fs (align_up offset (e.1) + e.0) (max_of max_align (e.1))
            (max_of-IsAlign i (s.0)))

layout_step-Sized :
    (fields : StructDef → Result LayoutError Extent) (fuel : ℕ) (st : Structs) (t : AiplType)
    → Laid st
    → ((d : StructDef) → Holds Sized (fields d))
    → Holds Sized (layout_step fields fuel st t)
unfolding layout_step
layout_step-Sized fields fuel st (union n) laid h =
    elim (lookup n st.by_value)
        as (λ o.
          ((l : SumLayout) → o ≡ some l → IsLayout l)
          → Holds {E = LayoutError} Sized
              (elim o [ none ↦ ok (4, 4) | some l ↦ ok (l.size, l.align) ])) [
                | none ↦ λ _. (is_4, refl)
                | some l ↦ λ k. IsLayout-Sized l (k l refl)
              ]
      (laid n)
layout_step-Sized fields fuel st (result_type a b) laid h =
    Holds->>= FromKinds Sized (result_layout fuel st a b) _ (result_layout-FromKinds fuel st a b)
      (λ found.
        elim found
          as (λ o.
            FromKinds o
            → Holds {E = LayoutError} Sized (elim o [
              | none ↦ err (unsupported (result_type a b))
              | some l ↦ ok (l.size, l.align)
            ])) [ none ↦ λ _. tt | some l ↦ IsLayout-Sized l ])
layout_step-Sized fields fuel st (ptr _) laid h = (is_8, refl)
layout_step-Sized fields fuel st (array _) laid h = (is_8, refl)
layout_step-Sized fields fuel st (narrow u8) laid h = (is_1, refl)
layout_step-Sized fields fuel st (narrow i8) laid h = (is_1, refl)
layout_step-Sized fields fuel st (narrow u16) laid h = (is_2, refl)
layout_step-Sized fields fuel st (narrow i16) laid h = (is_2, refl)
layout_step-Sized fields fuel st i64 laid h = (is_8, refl)
layout_step-Sized fields fuel st f64 laid h = (is_8, refl)
layout_step-Sized fields fuel st void laid h = tt
layout_step-Sized fields fuel st (struct n) laid h =
    elim (value_struct st n)
      as (λ o.
        Holds {E = LayoutError} Sized
          (elim o [ none ↦ err (unsupported (struct n)) | some d ↦ fields d ])) [
            | none ↦ tt
            | some d ↦ h d
          ]
layout_step-Sized fields fuel st i32 laid h = (is_4, refl)
layout_step-Sized fields fuel st f32 laid h = (is_4, refl)
layout_step-Sized fields fuel st bool laid h = (is_4, refl)
layout_step-Sized fields fuel st str laid h = (is_4, refl)
layout_step-Sized fields fuel st (fn _ _ _) laid h = (is_4, refl)
layout_step-Sized fields fuel st (enum _) laid h = (is_4, refl)

-- Where each union held by value has a computed layout, a type's alignment is 1, 2, 4 or 8 and its size a
-- multiple of it, whenever it has a layout.
pub layout_at-Sized :
    (depth fuel : ℕ) (st : Structs) (t : AiplType)
    → Laid st
    → Holds Sized (layout_at depth fuel st t)
unfolding layout_at
layout_at-Sized zero fuel st t laid = layout_step-Sized _ fuel st t laid (λ d. tt)
layout_at-Sized (suc depth) fuel st t laid = layout_step-Sized _ fuel st t laid (λ d.
    Holds->>= (λ e. IsAlign e.1) Sized (place_fields (layout_at depth fuel st) 0 1 (d.fields)) _
      (place_fields-IsAlign (layout_at depth fuel st) (λ u. layout_at-Sized depth fuel st u laid)
        (d.fields) 0 1 is_1)
      (λ e i. (i, align_up-mod _ i)))
