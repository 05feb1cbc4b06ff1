-- ===== src/Layout/Slots.antt =====
-- The slots that a layout gives the scalars of a variant: `sum_layout` of src/checker.rs.
use aipl.Base.{
  ℕ, zero, suc, ◌+◌, ◌≤◌, ◌<◌, ◌≡◌, ◌≢◌, refl, ap, ◌∙◌, some, List, [], ◌∷◌, ◌++◌, map, get_elem?,
  All, arith,
}
use aipl.Ast.Expr.{AiplType, i32, i64, f32, f64}
use aipl.Ast.TypeEq.{type_eq}
use aipl.Layout.Sums.{
  Counts, slot_counts, kind_count, most_of, repeat, base, kind_slots, use_one, used_of, none_used,
  assign, slot_kind, layout_of,
}

-- The four kinds of slot.
pub data IsKind : AiplType → Type 0 where
  is_i32 : IsKind i32
  is_f32 : IsKind f32
  is_i64 : IsKind i64
  is_f64 : IsKind f64

pub slot_kind-IsKind : (t : AiplType) → IsKind (slot_kind t)
unfolding slot_kind
slot_kind-IsKind i64 = is_i64
slot_kind-IsKind (AiplType.ptr _) = is_i64
slot_kind-IsKind (AiplType.array _) = is_i64
slot_kind-IsKind f32 = is_f32
slot_kind-IsKind f64 = is_f64
slot_kind-IsKind _ = is_i32

-- The numbers are slots of the kinds, one for each, all different, and none the tag's.
abbrev pub Assigned : List AiplType → List AiplType → List ℕ → Type 0
Assigned slots [] [] = Unit
Assigned slots (k ∷ ks) (n ∷ ns) =
    (get_elem? slots n ≡ some k) × (0 < n) × All (λ m. m ≢ n) ns × Assigned slots ks ns
Assigned slots _ _ = ⊥

abbrev pub AllAssigned : List AiplType → List (List AiplType) → List (List ℕ) → Type 0
AllAssigned slots [] [] = Unit
AllAssigned slots (v ∷ vs) (ns ∷ more) = Assigned slots v ns × AllAssigned slots vs more
AllAssigned slots _ _ = ⊥

get_elem?-within :
    (t : AiplType) (n i : ℕ) (xs : List AiplType) → i < n → get_elem? (repeat t n ++ xs) i ≡ some t
unfolding repeat
get_elem?-within t zero i xs h = absurd (omega arith)
get_elem?-within t (suc n) zero xs h = refl
get_elem?-within t (suc n) (suc i) xs h = get_elem?-within t n i xs (omega arith)

get_elem?-skip :
    (t : AiplType) (n i j : ℕ) (xs : List AiplType)
    → j ≡ n + i
    → get_elem? (repeat t n ++ xs) j ≡ get_elem? xs i
unfolding repeat
get_elem?-skip t zero i j xs h = ap (get_elem? xs) (omega arith)
get_elem?-skip t (suc n) i zero xs h = absurd (omega arith)
get_elem?-skip t (suc n) i (suc j) xs h = get_elem?-skip t n i j xs (omega arith)

get_elem?-repeat : (t : AiplType) (n i : ℕ) → i < n → get_elem? (repeat t n) i ≡ some t
unfolding repeat
get_elem?-repeat t zero i h = absurd (omega arith)
get_elem?-repeat t (suc n) zero h = refl
get_elem?-repeat t (suc n) (suc i) h = get_elem?-repeat t n i (omega arith)

-- A slot of a kind's own range holds the kind.
get_elem?-kind_slots :
    (c : Counts) {k : AiplType} (n : ℕ)
    → IsKind k
    → n < used_of c k
    → get_elem? (kind_slots c) (base c k + n) ≡ some k
unfolding kind_slots base used_of
get_elem?-kind_slots c n is_i32 h =
    let moved : 1 + n ≡ suc n = omega arith in
    ap (get_elem? (kind_slots c)) moved ∙ get_elem?-within _ _ _ _ h
get_elem?-kind_slots c n is_f32 h =
    let moved : 1 + c.of_i32 + n ≡ suc (c.of_i32 + n) = omega arith in
    ap (get_elem? (kind_slots c)) moved
    ∙ (get_elem?-skip _ c.of_i32 n _ _ refl ∙ get_elem?-within _ _ _ _ h)
get_elem?-kind_slots c n is_i64 h =
    let moved : 1 + c.of_i32 + c.of_f32 + n ≡ suc (c.of_i32 + (c.of_f32 + n)) = omega arith in
    ap (get_elem? (kind_slots c)) moved
    ∙ (get_elem?-skip _ c.of_i32 (c.of_f32 + n) _ _ refl
        ∙ (get_elem?-skip _ c.of_f32 n _ _ refl ∙ get_elem?-within _ _ _ _ h))
get_elem?-kind_slots c n is_f64 h =
    let moved : 1 + c.of_i32 + c.of_f32 + c.of_i64 + n
        ≡ suc (c.of_i32 + (c.of_f32 + (c.of_i64 + n))) =
      omega arith in
    ap (get_elem? (kind_slots c)) moved
    ∙ (get_elem?-skip _ c.of_i32 (c.of_f32 + (c.of_i64 + n)) _ _ refl
        ∙ (get_elem?-skip _ c.of_f32 (c.of_i64 + n) _ _ refl
            ∙ (get_elem?-skip _ c.of_i64 n _ _ refl ∙ get_elem?-repeat _ _ _ h)))

-- The slots that are left suffice for the kinds to come.
abbrev Room : Counts → Counts → List AiplType → Type 0
Room c used ks =
    (used.of_i32 + kind_count i32 ks ≤ c.of_i32)
    × (used.of_f32 + kind_count f32 ks ≤ c.of_f32)
    × (used.of_i64 + kind_count i64 ks ≤ c.of_i64)
    × (used.of_f64 + kind_count f64 ks ≤ c.of_f64)

Room-next :
    (c used : Counts) {t : AiplType} (ks : List AiplType)
    → IsKind t
    → Room c used (t ∷ ks)
    → Room c (use_one t used) ks
unfolding kind_count use_one type_eq
Room-next c used ks is_i32 (a, b, d, e) = (omega arith, b, d, e)
Room-next c used ks is_f32 (a, b, d, e) = (a, omega arith, d, e)
Room-next c used ks is_i64 (a, b, d, e) = (a, b, omega arith, e)
Room-next c used ks is_f64 (a, b, d, e) = (a, b, d, omega arith)

Room-head :
    (c used : Counts) {t : AiplType} (ks : List AiplType)
    → IsKind t
    → Room c used (t ∷ ks)
    → used_of used t < used_of c t
unfolding kind_count used_of type_eq
Room-head c used ks is_i32 (a, b, d, e) = omega arith
Room-head c used ks is_f32 (a, b, d, e) = omega arith
Room-head c used ks is_i64 (a, b, d, e) = omega arith
Room-head c used ks is_f64 (a, b, d, e) = omega arith

-- Different slots of one kind are different, and so are slots of different kinds.
base-apart :
    (c : Counts) {k t : AiplType} (n m : ℕ)
    → IsKind k
    → IsKind t
    → n < used_of c k
    → m < used_of c t
    → (k ≡ t → n ≢ m)
    → base c t + m ≢ base c k + n
unfolding used_of base
base-apart c n m is_i32 is_i32 h o d = λ e. d refl (omega (arith, e))
base-apart c n m is_f32 is_f32 h o d = λ e. d refl (omega (arith, e))
base-apart c n m is_i64 is_i64 h o d = λ e. d refl (omega (arith, e))
base-apart c n m is_f64 is_f64 h o d = λ e. d refl (omega (arith, e))
base-apart c n m _ _ h o d = λ e. omega (arith, e)

used_of-use_one :
    (used : Counts) {k t : AiplType}
    → IsKind k
    → IsKind t
    → used_of used k ≤ used_of (use_one t used) k
unfolding used_of use_one
used_of-use_one used is_i32 is_i32 = omega arith
used_of-use_one used is_f32 is_f32 = omega arith
used_of-use_one used is_i64 is_i64 = omega arith
used_of-use_one used is_f64 is_f64 = omega arith
used_of-use_one used _ _ = omega arith

used_of-use_one_same :
    (used : Counts) {k : AiplType} → IsKind k → used_of used k < used_of (use_one k used) k
unfolding used_of use_one
used_of-use_one_same used is_i32 = omega arith
used_of-use_one_same used is_f32 = omega arith
used_of-use_one_same used is_i64 = omega arith
used_of-use_one_same used is_f64 = omega arith

base-pos : (c : Counts) {k : AiplType} (n : ℕ) → IsKind k → 0 < base c k + n
unfolding base
base-pos c n is_i32 = omega arith
base-pos c n is_f32 = omega arith
base-pos c n is_i64 = omega arith
base-pos c n is_f64 = omega arith

-- A slot that is used is not assigned again.
assign-avoids :
    (c used : Counts) {k : AiplType} (n : ℕ) (ks : List AiplType)
    → IsKind k
    → All IsKind ks
    → n < used_of used k
    → n < used_of c k
    → Room c used ks
    → All (λ m. m ≢ base c k + n) (assign c used ks)
unfolding assign
assign-avoids c used n [] i js h o room = tt
assign-avoids c used n (t ∷ ks) i (j, js) h o room = (
  base-apart c n _ i j o (Room-head c used ks j room)
      (λ same. λ e. omega (arith, e, ap (used_of used) same)),
  assign-avoids c (use_one t used) n ks i js (omega (arith, used_of-use_one used i j)) o
      (Room-next c used ks j room),
)

assign-Assigned :
    (c used : Counts) (ks : List AiplType)
    → All IsKind ks
    → Room c used ks
    → Assigned (kind_slots c) ks (assign c used ks)
unfolding assign
assign-Assigned c used [] js room = tt
assign-Assigned c used (t ∷ ks) (j, js) room =
    let n = Room-head c used ks j room in
    (
      get_elem?-kind_slots c _ j n,
      base-pos c _ j,
      assign-avoids c (use_one t used) _ ks j js (used_of-use_one_same used j) n
          (Room-next c used ks j room),
      assign-Assigned c (use_one t used) ks js (Room-next c used ks j room),
    )

-- No kind has more scalars in a variant than there are slots for it.
abbrev Enough : Counts → List (List AiplType) → Type 0
Enough c vs =
    (most_of i32 vs ≤ c.of_i32)
    × (most_of f32 vs ≤ c.of_f32)
    × (most_of i64 vs ≤ c.of_i64)
    × (most_of f64 vs ≤ c.of_f64)

map-AllAssigned :
    (c : Counts) (vs : List (List AiplType))
    → All (All IsKind) vs
    → Enough c vs
    → AllAssigned (kind_slots c) vs (map (assign c none_used) vs)
unfolding most_of
map-AllAssigned c [] js enough = tt
map-AllAssigned c (v ∷ vs) (j, js) (a, b, d, e) = (
  assign-Assigned c none_used v j (ground arith, ground arith, ground arith, ground arith),
  map-AllAssigned c vs js (ground arith, ground arith, ground arith, ground arith),
)

-- In the layout of a union held by value, each scalar of a variant's fields has a slot of its kind, which
-- is not the tag's and which no other scalar of the variant has.
pub layout_of-AllAssigned :
    (variants : List (List AiplType))
    → All (All IsKind) variants
    → AllAssigned (layout_of variants).slots variants (layout_of variants).slots_of
unfolding layout_of slot_counts
layout_of-AllAssigned vs js =
    map-AllAssigned (slot_counts vs) vs js (omega arith, omega arith, omega arith, omega arith)
