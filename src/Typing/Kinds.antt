-- ===== src/Typing/Kinds.antt =====
-- The tests of types that the operators' rules make: src/checker.rs.
use aipl.Base.{String, Bool, true, false, ◌&&◌, ◌||◌, Option, none, some, is_code, if◌then◌else◌}
use aipl.Ast.Expr.{AiplType, i32, i64, f32, f64, bool, str, ptr, struct, array, fn, enum, union}
use aipl.Ast.TypeEq.{type_eq, types_eq}
use aipl.Scopes.Shown.{shown}

-- A type parameter's placeholder.
unfoldable pub is_sealed : String → Bool
is_sealed String.[] = false
is_sealed (String.◌∷◌ c _) = is_code c b'\''

-- The parameter that a placeholder enum type stands for.
unfoldable pub sealed : AiplType → Option String
sealed (enum n) = if is_sealed n then some (shown n) else none
sealed t = none

abbrev pub either {ℓ} : {A : Type ℓ} → Option A → Option A → Option A
either (some a) b = some a
either none b = b

abbrev pub is_integer : AiplType → Bool
is_integer i32 = true
is_integer i64 = true
is_integer t = false

abbrev pub is_number : AiplType → Bool
is_number i32 = true
is_number i64 = true
is_number f32 = true
is_number f64 = true
is_number t = false

abbrev pub is_enum : AiplType → Bool
is_enum (enum _) = true
is_enum t = false

abbrev pub is_union : AiplType → Bool
is_union (union _) = true
is_union t = false

abbrev pub is_struct : AiplType → Bool
is_struct (struct _) = true
is_struct t = false

abbrev pub is_str : AiplType → Bool
is_str str = true
is_str t = false

abbrev pub is_bool : AiplType → Bool
is_bool bool = true
is_bool t = false

-- A pointer, an array or a function reference.
abbrev pub is_reference : AiplType → Bool
is_reference (ptr _) = true
is_reference (array _) = true
is_reference (fn _ _ _) = true
is_reference t = false

-- `special`: a type whose operands get an explanation of their own.
abbrev pub special : AiplType → Bool
special t = is_reference t || is_enum t || is_union t

-- Function types that differ only in the promise meet at the type without it.
abbrev pub meet_functions : AiplType → AiplType → Option AiplType
meet_functions (fn p r _) (fn q s _) =
    if types_eq p q && type_eq r s then some (fn p r false) else none
meet_functions _ _ = none

-- Where two compared values' types meet.
unfoldable pub meet : AiplType → AiplType → Option AiplType
meet a b = if type_eq a b then some a else meet_functions a b

-- Whether a value of the first type fits where the second is asked for.
unfoldable pub fits : AiplType → AiplType → Bool
fits (fn p r true) (fn q s false) = types_eq p q && type_eq r s
fits got want = type_eq got want
