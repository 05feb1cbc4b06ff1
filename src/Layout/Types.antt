-- ===== src/Layout/Types.antt =====
-- `Structs`, and the scalars that a value is: src/checker.rs.
use aipl.Base.{
  ℕ, zero, suc, leb, String, Option, none, some, List, [], ◌∷◌, ◌++◌, map, length, Result, ok, err,
  ◌>>=◌, if◌then◌else◌,
}
use aipl.Base.Dict.{Dict, lookup}
use aipl.Ast.Expr.{AiplType, void, struct, result_type, union}
use aipl.Ast.Defs.{StructDef, Variant, UnionDef}
use aipl.Layout.Sums.{SumLayout, slot_kind, layout_of}

pub record Structs : Type 0 where
  pub defs : Dict StructDef
  pub unions : Dict UnionDef
  pub by_value : Dict SumLayout

pub data LayoutError : Type 0 where
  -- "Unsupported type for memory layout"
  unsupported : AiplType → LayoutError
  -- "Struct '...' has no field '...'"
  no_field : (struct_name field : String) → LayoutError
  -- the recursion through the fields of value structs does not end within the fuel
  endless : LayoutError

-- The most scalars a value may hold.
abbrev pub max_scalars : ℕ
max_scalars = 8

-- The definition of a value struct.
unfoldable pub value_struct : Structs → String → Option StructDef
value_struct st n = elim (lookup n st.defs) [
  | none ↦ none
  | some d ↦ if d.is_value then some d else none
]

-- `iter().flat_map(f).collect()` of a function that may fail.
unfoldable pub flat_map :
    {A : Type 0} {B : Type 0}
    → (A → Result LayoutError (List B))
    → List A
    → Result LayoutError (List B)
flat_map f [] = ok []
flat_map f (x ∷ xs) = do ys ← f x; zs ← flat_map f xs; ok (ys ++ zs)

-- The scalars of a type, given how to find those of a type inside it.
module _ (inner : AiplType → Result LayoutError (List AiplType)) where
  -- The slot kinds of each variant's scalars.
  unfoldable pub variant_kinds : List Variant → Result LayoutError (List (List AiplType))
  unfolding flat_map
  variant_kinds [] = ok []
  variant_kinds (v ∷ vs) = do
    ts ← flat_map (λ f. inner (f.field_ty)) v.payload
    others ← variant_kinds vs
    ok (map slot_kind ts ∷ others)

  unfoldable pub sum_layout : List Variant → Result LayoutError SumLayout
  sum_layout variants = do kinds ← variant_kinds variants; ok (layout_of kinds)

  -- The layout of a result held by value; `none` when it needs too many slots.
  unfoldable pub result_sum : AiplType → AiplType → Result LayoutError (Option SumLayout)
  result_sum good bad = do
    l ← sum_layout (
        record { variant_name = "ok"; payload = record { field_name = "v"; field_ty = good } ∷ [] }
        ∷ record {
          variant_name = "err";
          payload = record { field_name = "v"; field_ty = bad } ∷ [];
        }
        ∷ [])
    ok (if leb (length l.slots) max_scalars then some l else none)

  unfoldable pub scalars_step : Structs → AiplType → Result LayoutError (List AiplType)
  unfolding flat_map
  scalars_step st (struct n) = elim (value_struct st n) [
    | none ↦ ok (struct n ∷ [])
    | some d ↦ flat_map (λ f. inner (f.field_ty)) d.fields
  ]
  scalars_step st (union n) = elim (lookup n st.by_value) [
    | none ↦ ok (union n ∷ [])
    | some l ↦ ok l.slots
  ]
  scalars_step st (result_type a b) = do
    found ← result_sum a b
    ok (elim found [ none ↦ result_type a b ∷ [] | some l ↦ l.slots ])
  scalars_step st void = ok []
  scalars_step st t = ok (t ∷ [])

-- The scalars that a value is, in order. The fuel bounds the types inside types.
unfoldable pub scalars : ℕ → Structs → AiplType → Result LayoutError (List AiplType)
scalars zero st t = err endless
scalars (suc fuel) st t = scalars_step (scalars fuel st) st t

unfoldable pub result_layout :
    ℕ → Structs → AiplType → AiplType → Result LayoutError (Option SumLayout)
result_layout fuel st a b = result_sum (scalars fuel st) a b

-- The layout of a union or result type held by value, if it is one.
unfoldable pub sum_of : ℕ → Structs → AiplType → Result LayoutError (Option SumLayout)
sum_of fuel st (union n) = ok (lookup n st.by_value)
sum_of fuel st (result_type a b) = result_layout fuel st a b
sum_of fuel st t = ok none
