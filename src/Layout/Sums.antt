-- ===== src/Layout/Sums.antt =====
-- `SumLayout` and `sum_layout` of src/checker.rs, from the kinds of each variant's scalars. A size or an
-- offset is a natural number.
use aipl.Base.{ℕ, zero, suc, ◌+◌, ◌-◌, ◌*◌, ◌/◌, leb, List, [], ◌∷◌, ◌++◌, map, if◌then◌else◌}
use aipl.Ast.Expr.{AiplType, i32, i64, f32, f64, ptr, array, narrow}
use aipl.Ast.TypeEq.{type_eq}

-- A union held by value: its slots, the first of them its tag, and for each variant the slot of each
-- scalar of its fields.
pub record SumLayout : Type 0 where
  pub slots : List AiplType
  pub offsets : List ℕ
  pub size : ℕ
  pub align : ℕ
  pub slots_of : List (List ℕ)

unfoldable pub slot_kind : AiplType → AiplType
slot_kind i64 = i64
slot_kind (ptr _) = i64
slot_kind (array _) = i64
slot_kind f32 = f32
slot_kind f64 = f64
slot_kind _ = i32

-- The type a value read from a field or element has.
unfoldable pub value_of : AiplType → AiplType
value_of (narrow _) = i32
value_of t = t

-- `(x + a - 1) & !(a - 1)` of a power of two: the next multiple of it.
unfoldable pub align_up : ℕ → ℕ → ℕ
align_up x a = (x + a - 1) / a * a

abbrev pub max_of : ℕ → ℕ → ℕ
max_of a b = if leb a b then b else a

-- How many of `ts` have kind `k`.
unfoldable pub kind_count : AiplType → List AiplType → ℕ
kind_count k [] = 0
kind_count k (t ∷ ts) = if type_eq t k then suc (kind_count k ts) else kind_count k ts

-- The most of kind `k` that a variant has.
unfoldable pub most_of : AiplType → List (List AiplType) → ℕ
most_of k [] = 0
most_of k (v ∷ vs) = max_of (kind_count k v) (most_of k vs)

unfoldable pub repeat : AiplType → ℕ → List AiplType
repeat t zero = []
repeat t (suc n) = t ∷ repeat t n

-- How many slots each kind takes.
pub record Counts : Type 0 where
  pub of_i32 : ℕ
  pub of_f32 : ℕ
  pub of_i64 : ℕ
  pub of_f64 : ℕ

unfoldable pub slot_counts : List (List AiplType) → Counts
slot_counts vs = record {
  of_i32 = most_of i32 vs;
  of_f32 = most_of f32 vs;
  of_i64 = most_of i64 vs;
  of_f64 = most_of f64 vs;
}

-- The first slot of a kind: after the tag and the slots of the kinds before it.
unfoldable pub base : Counts → AiplType → ℕ
base c f32 = 1 + c.of_i32
base c i64 = 1 + c.of_i32 + c.of_f32
base c f64 = 1 + c.of_i32 + c.of_f32 + c.of_i64
base c _ = 1

unfoldable pub kind_slots : Counts → List AiplType
kind_slots c =
    i32
    ∷ (repeat i32 c.of_i32 ++ (repeat f32 c.of_f32 ++ (repeat i64 c.of_i64 ++ repeat f64 c.of_f64)))

-- `used[k] += 1`.
unfoldable pub use_one : AiplType → Counts → Counts
use_one f32 u = record {
  of_i32 = u.of_i32;
  of_f32 = suc u.of_f32;
  of_i64 = u.of_i64;
  of_f64 = u.of_f64;
}
use_one i64 u = record {
  of_i32 = u.of_i32;
  of_f32 = u.of_f32;
  of_i64 = suc u.of_i64;
  of_f64 = u.of_f64;
}
use_one f64 u = record {
  of_i32 = u.of_i32;
  of_f32 = u.of_f32;
  of_i64 = u.of_i64;
  of_f64 = suc u.of_f64;
}
use_one _ u = record {
  of_i32 = suc u.of_i32;
  of_f32 = u.of_f32;
  of_i64 = u.of_i64;
  of_f64 = u.of_f64;
}

unfoldable pub used_of : Counts → AiplType → ℕ
used_of u f32 = u.of_f32
used_of u i64 = u.of_i64
used_of u f64 = u.of_f64
used_of u _ = u.of_i32

abbrev pub none_used : Counts
none_used = record { of_i32 = 0; of_f32 = 0; of_i64 = 0; of_f64 = 0 }

-- The slots of a variant's scalars: the next unused one of each one's kind.
unfoldable pub assign : Counts → Counts → List AiplType → List ℕ
assign c used [] = []
assign c used (t ∷ ts) = (base c t + used_of used t) ∷ assign c (use_one t used) ts

unfoldable pub slot_align : AiplType → ℕ
slot_align i64 = 8
slot_align f64 = 8
slot_align _ = 4

-- The loop that places the slots from an offset: their offsets, and the end.
unfoldable pub place_slots : ℕ → List AiplType → List ℕ
place_slots offset [] = []
place_slots offset (t ∷ ts) =
    let at = align_up offset (slot_align t) in at ∷ place_slots (at + slot_align t) ts

unfoldable pub place_end : ℕ → List AiplType → ℕ
place_end offset [] = offset
place_end offset (t ∷ ts) = place_end (align_up offset (slot_align t) + slot_align t) ts

unfoldable pub slots_align : ℕ → List AiplType → ℕ
slots_align align [] = align
slots_align align (t ∷ ts) = slots_align (max_of align (slot_align t)) ts

-- `sum_layout`, from the slot kinds of each variant's scalars.
unfoldable pub layout_of : List (List AiplType) → SumLayout
layout_of per_variant =
    let c = slot_counts per_variant in
    let slots = kind_slots c in
    let align = slots_align 4 slots in
    record {
      slots = slots;
      offsets = place_slots 0 slots;
      size = align_up (place_end 0 slots) align;
      align = align;
      slots_of = map (assign c none_used) per_variant;
    }
