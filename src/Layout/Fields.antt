-- ===== src/Layout/Fields.antt =====
-- Where the fields of a struct lie: `get_field_offset` and `get_struct_size` of src/checker.rs.
use aipl.Base.{
  ℕ, ◌+◌, ◌%◌, ◌≤◌, ◌≡◌, ◌≢◌, refl, sym, ap, String, str_eq, eq_iff, Bool, true, false, List, [],
  ◌∷◌, arith, Result, ok, ◌>>=◌, if◌then◌else◌, ◌⊎◌, inl, inr, Bool-cases, ◌∙◌,
}
use aipl.Base.Outcome.{Holds, Holds-ok, ok-of->>=}
use aipl.Ast.Expr.{AiplType}
use aipl.Ast.Defs.{StructField, StructDef}
use aipl.Layout.Sums.{align_up, max_of}
use aipl.Layout.Types.{Structs, LayoutError, no_field}
use aipl.Layout.Extents.{
  Extent, place_fields, find_field, field_offset, struct_size, get_field_offset, get_struct_size,
  type_size_and_align,
}
use aipl.Layout.Aligned.{
  IsAlign, is_1, align_up-le, align_up-mod, place_fields-IsAlign, Sized, Laid, layout_at-Sized,
}

-- The struct has a field of this name.
abbrev pub HasField : String → List StructField → Type 0
HasField name [] = ⊥
HasField name (f ∷ fs) = (str_eq f.field_name name ≡ true) ⊎ HasField name fs

ok_eq : {n m : ℕ} → ◌≡◌ {A = Result LayoutError ℕ} (ok n) (ok m) → n ≡ m
ok_eq e = cc

hit_eq :
    (b : Bool) {at' at : ℕ} {t' t : AiplType} (other : Result LayoutError (ℕ × AiplType))
    → b ≡ true
    → (if b then ok (at', t') else other) ≡ ok (at, t)
    → (at' ≡ at) × (t' ≡ t)
hit_eq true other e h = (cc, cc)
hit_eq false other e h = cc

miss_eq :
    (b : Bool) {r : ℕ × AiplType} (here other : Result LayoutError (ℕ × AiplType))
    → b ≡ false
    → (if b then here else other) ≡ ok r
    → other ≡ ok r
miss_eq true here other e h = cc
miss_eq false here other e h = h

module _ (extent : AiplType → Result LayoutError Extent) where
  -- A field of this name, at its place: at a multiple of its alignment between two offsets.
  abbrev Within : ℕ → ℕ → Result LayoutError (ℕ × AiplType) → Type 0
  Within low high found =
      (at : ℕ) × (t : AiplType) × (s : ℕ) × (a : ℕ) × (found ≡ ok (at, t))
      × (extent t ≡ ok (s, a))
      × (at % a ≡ 0)
      × (low ≤ at)
      × (at + s ≤ high)

  same_size :
      {t u : AiplType} {s a s' a' : ℕ}
      → t ≡ u
      → extent t ≡ ok (s, a)
      → extent u ≡ ok (s', a')
      → s ≡ s'
  same_size e p q = let both = sym p ∙ (ap extent e ∙ q) in cc

  place_fields-step :
      (f : StructField) (fs : List StructField) (offset m : ℕ) {s a : ℕ}
      → extent (f.field_ty) ≡ ok (s, a)
      → place_fields extent offset m (f ∷ fs)
        ≡ place_fields extent (align_up offset a + s) (max_of m a) fs
  unfolding place_fields
  place_fields-step f fs offset m e = rw (e, ◌>>=◌) refl

  find_field-step :
      (missing : LayoutError) (name : String) (f : StructField) (fs : List StructField) (offset : ℕ)
      {s a : ℕ}
      → extent (f.field_ty) ≡ ok (s, a)
      → find_field extent missing name offset (f ∷ fs) ≡ (
          if str_eq (f.field_name) name
          then ok (align_up offset a, f.field_ty)
          else find_field extent missing name (align_up offset a + s) fs)
  unfolding find_field
  find_field-step missing name f fs offset e = rw (e, ◌>>=◌) refl

  module _ (sized : (t : AiplType) → Holds Sized (extent t)) where
    -- The first step of a loop over fields that succeeds.
    place_fields-ok :
        (f : StructField) (fs : List StructField) (offset m : ℕ) {e : Extent}
        → place_fields extent offset m (f ∷ fs) ≡ ok e
        → (s : ℕ) × (a : ℕ) × (extent (f.field_ty) ≡ ok (s, a))
          × IsAlign a
          × (place_fields extent (align_up offset a + s) (max_of m a) fs ≡ ok e)
    unfolding place_fields
    place_fields-ok f fs offset m h =
        let ((s, a), found, rest) = ok-of->>= (extent (f.field_ty)) _ h in
        let (i, _) = Holds-ok Sized (sized (f.field_ty)) found in (s, a, found, i, rest)

    place_fields-le :
        (fs : List StructField) (offset m : ℕ) {end m' : ℕ}
        → place_fields extent offset m fs ≡ ok (end, m')
        → offset ≤ end
    unfolding place_fields
    place_fields-le [] offset m h = ground arith
    place_fields-le (f ∷ fs) offset m h =
        let (s, a, found, i, rest) = place_fields-ok f fs offset m h in
        omega (
          arith,
          align_up-le offset i,
          place_fields-le fs (align_up offset a + s) (max_of m a) rest,
        )

    find_field-Within :
        (missing : LayoutError) (name : String) (fs : List StructField) (offset m : ℕ) {end m' : ℕ}
        → place_fields extent offset m fs ≡ ok (end, m')
        → HasField name fs
        → Within offset end (find_field extent missing name offset fs)
    find_field-Within missing name (f ∷ fs) offset m h has =
        let (s, a, found, i, rest) = place_fields-ok f fs offset m h in
        let step = find_field-step missing name f fs offset found in
        let end_le = place_fields-le fs (align_up offset a + s) (max_of m a) rest in
        elim (Bool-cases (str_eq f.field_name name)) [
          | inl e ↦ (
            align_up offset a,
            f.field_ty,
            s,
            a,
            step ∙ rw e refl,
            found,
            align_up-mod offset i,
            align_up-le offset i,
            end_le,
          )
          | inr e ↦ elim has [
            | inl e' ↦ let bad : true ≡ false = sym e' ∙ e in cc
            | inr later ↦
                let (at, t, s', a', eq, found', aligned, low, high) =
                  find_field-Within missing name fs (align_up offset a + s) (max_of m a) rest
                    later in
                (
                  at,
                  t,
                  s',
                  a',
                  step ∙ rw e eq,
                  found',
                  aligned,
                  omega (arith, align_up-le offset i, low),
                  high,
                )
          ]
        ]
    find_field-Within missing name [] offset m h has = absurd has

    find_field-hit :
        (missing : LayoutError) (name : String) (f : StructField) (fs : List StructField)
        (offset : ℕ) {s a at : ℕ} {t : AiplType}
        → extent (f.field_ty) ≡ ok (s, a)
        → str_eq (f.field_name) name ≡ true
        → find_field extent missing name offset (f ∷ fs) ≡ ok (at, t)
        → (align_up offset a ≡ at) × (f.field_ty ≡ t)
    find_field-hit missing name f fs offset {s = s} {a = a} found e h =
        let step = sym (find_field-step missing name f fs offset found) ∙ h in
        hit_eq (str_eq (f.field_name) name) _ e step

    find_field-miss :
        (missing : LayoutError) (name : String) (f : StructField) (fs : List StructField)
        (offset : ℕ) {s a : ℕ} {r : ℕ × AiplType}
        → extent (f.field_ty) ≡ ok (s, a)
        → str_eq (f.field_name) name ≡ false
        → find_field extent missing name offset (f ∷ fs) ≡ ok r
        → find_field extent missing name (align_up offset a + s) fs ≡ ok r
    find_field-miss missing name f fs offset found e h =
        let step = sym (find_field-step missing name f fs offset found) ∙ h in
        miss_eq (str_eq (f.field_name) name) _ _ e step

    find_field-le :
        (missing : LayoutError) (name : String) (fs : List StructField) (offset m : ℕ)
        {end m' at : ℕ} {t : AiplType}
        → place_fields extent offset m fs ≡ ok (end, m')
        → find_field extent missing name offset fs ≡ ok (at, t)
        → offset ≤ at
    unfolding find_field
    find_field-le missing name [] offset m h u = cc
    find_field-le missing name (f ∷ fs) offset m h u =
        let (s, a, found, i, rest) = place_fields-ok f fs offset m h in
        elim (Bool-cases (str_eq f.field_name name)) [
          | inl e ↦
              let (eq, _) = find_field-hit missing name f fs offset found e u in
              omega (arith, align_up-le offset i, eq)
          | inr e ↦ omega (
            arith,
            align_up-le offset i,
            find_field-le missing name fs (align_up offset a + s) (max_of m a) rest
                (find_field-miss missing name f fs offset found e u),
          )
        ]

    -- Two fields of different names lie one before the other.
    find_field-apart :
        (missing_f missing_g : LayoutError) (fs : List StructField) (offset m : ℕ) (f g : String)
        {end m' at_f at_g s_f s_g a_f a_g : ℕ} {t_f t_g : AiplType}
        → place_fields extent offset m fs ≡ ok (end, m')
        → f ≢ g
        → find_field extent missing_f f offset fs ≡ ok (at_f, t_f)
        → find_field extent missing_g g offset fs ≡ ok (at_g, t_g)
        → extent t_f ≡ ok (s_f, a_f)
        → extent t_g ≡ ok (s_g, a_g)
        → (at_f + s_f ≤ at_g) ⊎ (at_g + s_g ≤ at_f)
    unfolding find_field
    find_field-apart missing_f missing_g [] offset m f g h d u v x y = cc
    find_field-apart missing_f missing_g (k ∷ fs) offset m f g h d u v x y =
        let (s, a, found, i, rest) = place_fields-ok k fs offset m h in
        elim (Bool-cases (str_eq k.field_name f)) [
          | inl e ↦ elim (Bool-cases (str_eq k.field_name g)) [
            | inl e' ↦ absurd (d (sym ((eq_iff k.field_name f).0 e) ∙ (eq_iff k.field_name g).0 e'))
            | inr e' ↦
                let (at, same) = find_field-hit missing_f f k fs offset found e u in
                let size = same_size same found x in
                let past =
                  find_field-le missing_g g fs (align_up offset a + s) (max_of m a) rest
                    (find_field-miss missing_g g k fs offset found e' v) in
                inl (omega (arith, at, size, past))
          ]
          | inr e ↦ elim (Bool-cases (str_eq k.field_name g)) [
            | inl e' ↦
                let (at, same) = find_field-hit missing_g g k fs offset found e' v in
                let size = same_size same found y in
                let past =
                  find_field-le missing_f f fs (align_up offset a + s) (max_of m a) rest
                    (find_field-miss missing_f f k fs offset found e u) in
                inr (omega (arith, at, size, past))
            | inr e' ↦
                find_field-apart missing_f missing_g fs (align_up offset a + s) (max_of m a) f g
                  rest d (find_field-miss missing_f f k fs offset found e u)
                  (find_field-miss missing_g g k fs offset found e' v) x y
          ]
        ]

-- In a struct that has a size, each field that it has is found, lies at a multiple of its alignment and
-- ends inside the size, where each union held by value has a computed layout.
pub get_field_offset-Within :
    (fuel : ℕ) (st : Structs) (d : StructDef) (name : String) (size : ℕ)
    → Laid st
    → get_struct_size fuel st d ≡ ok size
    → HasField name d.fields
    → Within (type_size_and_align fuel st) 0 size (get_field_offset fuel st d name)
unfolding get_field_offset get_struct_size field_offset struct_size
get_field_offset-Within fuel st d name size laid h has =
    let ((end, m), placed, e) =
      ok-of->>= (place_fields (type_size_and_align fuel st) 0 1 d.fields) _ h in
    let extent = type_size_and_align fuel st in
    let sized = λ (t : AiplType). layout_at-Sized 64 fuel st t laid in
    let i =
      Holds-ok (λ e. IsAlign e.1) (place_fields-IsAlign extent sized d.fields 0 1 is_1) placed in
    let (at, t, s, a, found, sizes, aligned, low, high) =
      find_field-Within extent sized (no_field d.struct_name name) name d.fields 0 1 placed has in
    (at, t, s, a, found, sizes, aligned, low, omega (arith, high, align_up-le end i, ok_eq e))

-- Where a struct has a size and each union held by value a computed layout, two of its fields, of
-- different names, do not overlap.
pub get_field_offset-apart :
    (fuel : ℕ) (st : Structs) (d : StructDef) (f g : String) {size at_f at_g s_f s_g a_f a_g : ℕ}
    {t_f t_g : AiplType}
    → Laid st
    → get_struct_size fuel st d ≡ ok size
    → f ≢ g
    → get_field_offset fuel st d f ≡ ok (at_f, t_f)
    → get_field_offset fuel st d g ≡ ok (at_g, t_g)
    → type_size_and_align fuel st t_f ≡ ok (s_f, a_f)
    → type_size_and_align fuel st t_g ≡ ok (s_g, a_g)
    → (at_f + s_f ≤ at_g) ⊎ (at_g + s_g ≤ at_f)
unfolding get_field_offset get_struct_size field_offset struct_size
get_field_offset-apart fuel st d f g laid h ne u v x y =
    let (_, placed, _) = ok-of->>= (place_fields (type_size_and_align fuel st) 0 1 d.fields) _ h in
    find_field-apart (type_size_and_align fuel st) (λ t. layout_at-Sized 64 fuel st t laid) _ _
      d.fields 0 1 f g placed ne u v x y
