-- ===== src/Ast/TypeEq.antt =====
-- The derived `==` of `Type` in src/ast.rs.
use aipl.Base.{Bool, true, false, ◌&&◌, not, str_eq, eq_iff, ◌≡◌, refl, ap, arith}
use aipl.Base.Tests.{&&-split}
use aipl.Ast.Expr.{
  Narrow, u8, i8, u16, i16, AiplType, Types, i32, i64, f32, f64, bool, str, void, ptr, struct,
  result_type, array, fn, enum, union, narrow, no_types, next_type,
}

abbrev pub narrow_eq : Narrow → Narrow → Bool
narrow_eq u8 u8 = true
narrow_eq i8 i8 = true
narrow_eq u16 u16 = true
narrow_eq i16 i16 = true
narrow_eq _ _ = false

abbrev pub eq_Bool : Bool → Bool → Bool
eq_Bool true b = b
eq_Bool false b = not b

unfoldable mutual
  pub type_eq : AiplType → AiplType → Bool
  type_eq i32 i32 = true
  type_eq i64 i64 = true
  type_eq f32 f32 = true
  type_eq f64 f64 = true
  type_eq bool bool = true
  type_eq str str = true
  type_eq void void = true
  type_eq (ptr a) (ptr b) = type_eq a b
  type_eq (struct n) (struct m) = str_eq n m
  type_eq (result_type a e) (result_type b f) = type_eq a b && type_eq e f
  type_eq (array a) (array b) = type_eq a b
  type_eq (fn ps r k) (fn qs s l) = types_eq ps qs && (type_eq r s && eq_Bool k l)
  type_eq (enum n) (enum m) = str_eq n m
  type_eq (union n) (union m) = str_eq n m
  type_eq (narrow a) (narrow b) = narrow_eq a b
  type_eq _ _ = false

  pub types_eq : Types → Types → Bool
  types_eq no_types no_types = true
  types_eq (next_type a ps) (next_type b qs) = type_eq a b && types_eq ps qs
  types_eq _ _ = false

narrow_eq_sound : (a b : Narrow) → narrow_eq a b ≡ true → a ≡ b
narrow_eq_sound a b h = ground arith

eq_Bool_sound : (a b : Bool) → eq_Bool a b ≡ true → a ≡ b
eq_Bool_sound a b h = ground arith

mutual
  unfolding type_eq types_eq

  type_eq_sound_all : (a b : AiplType) → type_eq a b ≡ true → a ≡ b
  type_eq_sound_all i32 i32 h = refl
  type_eq_sound_all i64 i64 h = refl
  type_eq_sound_all f32 f32 h = refl
  type_eq_sound_all f64 f64 h = refl
  type_eq_sound_all bool bool h = refl
  type_eq_sound_all str str h = refl
  type_eq_sound_all void void h = refl
  type_eq_sound_all (ptr a) (ptr b) h = let ih = type_eq_sound_all a b h in cc
  type_eq_sound_all (struct n) (struct m) h = ap struct ((eq_iff n m).0 h)
  type_eq_sound_all (result_type a e) (result_type b f) h =
      let (p, q) = &&-split _ _ h in
      let ab = type_eq_sound_all a b p in let ef = type_eq_sound_all e f q in cc
  type_eq_sound_all (array a) (array b) h = let ih = type_eq_sound_all a b h in cc
  type_eq_sound_all (fn ps r k) (fn qs s l) h =
      let (p, more) = &&-split _ _ h in
      let (q, o) = &&-split _ _ more in
      let pq = types_eq_sound ps qs p in
      let rs = type_eq_sound_all r s q in let kl = eq_Bool_sound k l o in cc
  type_eq_sound_all (enum n) (enum m) h = ap enum ((eq_iff n m).0 h)
  type_eq_sound_all (union n) (union m) h = ap union ((eq_iff n m).0 h)
  type_eq_sound_all (narrow a) (narrow b) h = ap narrow (narrow_eq_sound a b h)
  type_eq_sound_all _ _ h = cc

  types_eq_sound : (ps qs : Types) → types_eq ps qs ≡ true → ps ≡ qs
  types_eq_sound no_types no_types h = refl
  types_eq_sound (next_type a ps) (next_type b qs) h =
      let (p, q) = &&-split _ _ h in
      let ab = type_eq_sound_all a b p in let pq = types_eq_sound ps qs q in cc
  types_eq_sound _ _ h = cc

pub type_eq_sound : (a b : AiplType) → type_eq a b ≡ true → a ≡ b
type_eq_sound = type_eq_sound_all
