-- ===== src/Layout/Tests.antt =====
-- Layouts at concrete types.
use aipl.Base.{
  ℕ, ◌+◌, ◌%◌, ◌≤◌, ◌≡◌, ◌≢◌, refl, String, str_eq, eq_iff, Bool, true, false, some, none, List, [],
  ◌∷◌, ok, ◌⊎◌, inl, inr, if◌then◌else◌,
}
use aipl.Base.Outcome.{Holds}
use aipl.Base.Dict.{lookup}
use aipl.Ast.Expr.{AiplType, u8, i64, f64, union, narrow, bool}
use aipl.Ast.Defs.{StructField, StructDef}
use aipl.Ast.TypeEq.{type_eq}
use aipl.Layout.Sums.{
  SumLayout, layout_of, slot_counts, most_of, kind_count, base, kind_slots, use_one, used_of,
  assign, repeat, place_slots, place_end, slots_align, slot_align, align_up,
}
use aipl.Layout.Types.{Structs}
use aipl.Layout.Extents.{
  place_fields, layout_step, layout_at, find_field, field_offset, struct_size, get_field_offset,
  get_struct_size,
}
use aipl.Layout.Slots.{AllAssigned, is_i64, is_f64, layout_of-AllAssigned}
use aipl.Layout.Aligned.{Laid, Sized, layout_at-Sized}
use aipl.Layout.Offsets.{Placed, layout_of-Placed}
use aipl.Layout.Fields.{get_field_offset-Within, get_field_offset-apart}

-- A union of nothing, an i64, and a pointer with two f64s.
abbrev opt_kinds : List (List AiplType)
opt_kinds = [] ∷ (i64 ∷ []) ∷ (i64 ∷ f64 ∷ f64 ∷ []) ∷ []

abbrev field : String → AiplType → StructField
field n t = record { field_name = n; field_ty = t }

abbrev entry : StructDef
entry = record {
  struct_name = "Entry";
  fields =
      field "tag" (narrow u8) ∷ field "key" i64 ∷ field "val" (union "Opt") ∷ field "on" bool ∷ [];
  struct_span = (1, 1);
  is_value = true;
}

abbrev program : Structs
program = record {
  defs = ("Entry", entry) ∷ [];
  unions = [];
  by_value = ("Opt", layout_of opt_kinds) ∷ [];
}

found : (b : Bool) {l l' : SumLayout} → (if b then some l else none) ≡ some l' → l' ≡ l
found true h = cc
found false h = cc

program-Laid : Laid program
unfolding lookup
program-Laid n l h = (opt_kinds, found (str_eq "Opt" n) h)

opt_size : (layout_of opt_kinds).size ∷ (layout_of opt_kinds).offsets ≡ 32 ∷ 0 ∷ 8 ∷ 16 ∷ 24 ∷ []
unfolding layout_of slot_counts most_of kind_count type_eq kind_slots repeat place_slots place_end
    slots_align slot_align align_up
opt_size = refl

opt_slots : (layout_of opt_kinds).slots_of ≡ [] ∷ (1 ∷ []) ∷ (1 ∷ 2 ∷ 3 ∷ []) ∷ []
unfolding layout_of slot_counts most_of kind_count type_eq kind_slots repeat assign base used_of
    use_one
opt_slots = refl

entry_size : get_struct_size 10 program entry ≡ ok 56
unfolding get_struct_size struct_size place_fields layout_at layout_step lookup layout_of
    slot_counts most_of kind_count type_eq kind_slots repeat place_slots place_end slots_align
    slot_align align_up
entry_size = refl

entry_val : get_field_offset 10 program entry "val" ≡ ok (16, union "Opt")
unfolding get_field_offset field_offset find_field layout_at layout_step lookup layout_of
    slot_counts most_of kind_count type_eq kind_slots repeat place_slots place_end slots_align
    slot_align align_up
entry_val = refl

layout_of-AllAssigned_example :
    AllAssigned (layout_of opt_kinds).slots opt_kinds (layout_of opt_kinds).slots_of
layout_of-AllAssigned_example =
    layout_of-AllAssigned opt_kinds (tt, ((is_i64, tt), ((is_i64, (is_f64, (is_f64, tt))), tt)))

layout_at-Sized_example : Holds Sized (layout_at 64 10 program (union "Opt"))
layout_at-Sized_example = layout_at-Sized 64 10 program (union "Opt") program-Laid

key-ne-val : ◌≢◌ {A = String} "key" "val"
key-ne-val e = let bad : false ≡ true = (eq_iff "key" "val").1 e in cc

get_field_offset-Within_example :
    (at : ℕ) × (t : AiplType) × (s : ℕ) × (a : ℕ) × (get_field_offset 10 program entry "val"
      ≡ ok (at, t))
    × (layout_at 64 10 program t ≡ ok (s, a))
    × (at % a ≡ 0)
    × (0 ≤ at)
    × (at + s ≤ 56)
get_field_offset-Within_example =
    get_field_offset-Within 10 program entry "val" 56 program-Laid entry_size (inr (inr (inl refl)))

entry_key : get_field_offset 10 program entry "key" ≡ ok (8, i64)
unfolding get_field_offset field_offset find_field layout_at layout_step lookup layout_of
    slot_counts most_of kind_count type_eq kind_slots repeat place_slots place_end slots_align
    slot_align align_up
entry_key = refl

key_extent : layout_at 64 10 program i64 ≡ ok (8, 8)
unfolding layout_at layout_step
key_extent = refl

val_extent : layout_at 64 10 program (union "Opt") ≡ ok (32, 8)
unfolding layout_at layout_step lookup layout_of slot_counts most_of kind_count type_eq kind_slots
    repeat place_slots place_end slots_align slot_align align_up
val_extent = refl

get_field_offset-apart_example : (8 + 8 ≤ 16) ⊎ (16 + 32 ≤ 8)
get_field_offset-apart_example =
    get_field_offset-apart 10 program entry "key" "val" program-Laid entry_size key-ne-val entry_key
      entry_val key_extent val_extent

layout_of-Placed_example :
    Placed (layout_of opt_kinds).size (layout_of opt_kinds).slots (layout_of opt_kinds).offsets
layout_of-Placed_example = layout_of-Placed opt_kinds
