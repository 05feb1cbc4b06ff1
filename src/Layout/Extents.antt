-- ===== src/Layout/Extents.antt =====
-- A type's size and alignment in memory, and the places of fields: src/checker.rs.
use aipl.Base.{
  ℕ, zero, suc, ◌+◌, String, str_eq, none, some, List, [], ◌∷◌, Result, ok, err, ◌>>=◌,
  if◌then◌else◌,
}
use aipl.Base.Dict.{lookup}
use aipl.Ast.Expr.{
  Narrow, u8, i8, u16, i16, AiplType, i64, f64, void, ptr, struct, result_type, array, union,
  narrow,
}
use aipl.Ast.Defs.{StructField, StructDef}
use aipl.Layout.Sums.{align_up, max_of}
use aipl.Layout.Types.{Structs, LayoutError, unsupported, no_field, value_struct, result_layout}

abbrev pub Extent : Type 0
Extent = ℕ × ℕ

abbrev pub narrow_size : Narrow → ℕ
narrow_size u8 = 1
narrow_size i8 = 1
narrow_size u16 = 2
narrow_size i16 = 2

-- The loop over fields: the offset and the largest alignment after them.
unfoldable pub place_fields :
    (AiplType → Result LayoutError Extent) → ℕ → ℕ → List StructField → Result LayoutError Extent
place_fields extent offset max_align [] = ok (offset, max_align)
place_fields extent offset max_align (f ∷ fs) = do
  (s, a) ← extent f.field_ty
  place_fields extent (align_up offset a + s) (max_of max_align a) fs

abbrev pub rounded : Extent → Extent
rounded e = (align_up e.0 e.1, e.1)

-- The layout of a type, given that of the fields of the value struct it is, if it is one.
unfoldable pub layout_step :
    (StructDef → Result LayoutError Extent) → ℕ → Structs → AiplType → Result LayoutError Extent
layout_step fields fuel st (union n) = elim (lookup n st.by_value) [
  | none ↦ ok (4, 4)
  | some l ↦ ok (l.size, l.align)
]
layout_step fields fuel st (result_type a b) = do
  found ← result_layout fuel st a b
  elim found [ none ↦ err (unsupported (result_type a b)) | some l ↦ ok (l.size, l.align) ]
layout_step fields fuel st (ptr _) = ok (8, 8)
layout_step fields fuel st (array _) = ok (8, 8)
layout_step fields fuel st (narrow n) = ok (narrow_size n, narrow_size n)
layout_step fields fuel st i64 = ok (8, 8)
layout_step fields fuel st f64 = ok (8, 8)
layout_step fields fuel st void = err (unsupported void)
layout_step fields fuel st (struct n) = elim (value_struct st n) [
  | none ↦ err (unsupported (struct n))
  | some d ↦ fields d
]
layout_step fields fuel st t = ok (4, 4)

-- The depth of value structs that is left, and the fuel of `scalars`.
unfoldable pub layout_at : ℕ → ℕ → Structs → AiplType → Result LayoutError Extent
unfolding place_fields
layout_at zero fuel st t = layout_step (λ d. err (unsupported t)) fuel st t
layout_at (suc depth) fuel st t =
    layout_step (λ d. place_fields (layout_at depth fuel st) 0 1 d.fields >>= λ e. ok (rounded e))
      fuel st t

abbrev pub type_size_and_align : ℕ → Structs → AiplType → Result LayoutError Extent
type_size_and_align fuel st t = layout_at 64 fuel st t

-- Where the language puts a type in memory: never a result.
unfoldable pub memory_layout : ℕ → Structs → AiplType → Result LayoutError Extent
memory_layout fuel st (result_type a b) = err (unsupported (result_type a b))
memory_layout fuel st t = type_size_and_align fuel st t

module _ (extent : AiplType → Result LayoutError Extent) where
  -- The loop of `get_field_offset`, from an offset.
  unfoldable pub find_field :
      LayoutError → String → ℕ → List StructField → Result LayoutError (ℕ × AiplType)
  find_field missing name offset [] = err missing
  find_field missing name offset (f ∷ fs) = extent f.field_ty >>= λ (s, a).
      let later = find_field missing name (align_up offset a + s) fs in
      if str_eq f.field_name name then ok (align_up offset a, f.field_ty) else later

  unfoldable pub field_offset : StructDef → String → Result LayoutError (ℕ × AiplType)
  field_offset d name = find_field (no_field d.struct_name name) name 0 d.fields

  unfoldable pub struct_size : StructDef → Result LayoutError ℕ
  struct_size d = place_fields extent 0 1 d.fields >>= λ e. ok (rounded e).0

unfoldable pub get_field_offset :
    ℕ → Structs → StructDef → String → Result LayoutError (ℕ × AiplType)
get_field_offset fuel st = field_offset (type_size_and_align fuel st)

unfoldable pub get_struct_size : ℕ → Structs → StructDef → Result LayoutError ℕ
get_struct_size fuel st = struct_size (type_size_and_align fuel st)
