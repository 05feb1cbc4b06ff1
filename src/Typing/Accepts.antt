-- ===== src/Typing/Accepts.antt =====
-- What an operator's rule has found when it accepts the types of the operands.
use aipl.Base.{
  Bool, true, false, ◌&&◌, ◌||◌, not, Option, none, some, [], ◌∷◌, ok, ok_or, fail_if,
  if◌then◌else◌, ◌≡◌, refl, sym, ◌∙◌, arith, Bool-cases, inl, inr, ap, ◌⊎◌,
}
use aipl.Base.Outcome.{Holds, Holds-step}
use aipl.Ast.Expr.{AiplType, i32, i64, f32, f64, bool, void, result_type, fn, narrow}
use aipl.Ast.Op.{OpCode}
use aipl.Ast.TypeEq.{type_eq, types_eq, type_eq_sound}
use aipl.Typing.Kinds.{
  is_integer, is_number, is_enum, is_union, is_struct, is_str, is_bool, is_reference, special, meet,
  meet_functions,
}
use aipl.Typing.Operators.{
  TypeError, binary_mismatch, needs_integers, needs_numbers, reference_arithmetic, union_arithmetic,
  enum_arithmetic, joins_strings, unsigned_order, union_comparison, struct_comparison,
  str_comparison, unordered, bool_order, comparison_mismatch, parameter_arithmetic,
  parameter_comparison, no_parameter, checked_rule, arithmetic_rule, bits_rule, comparison_rule,
  integer_only, is_add, explained, is_equality, is_unsigned,
}

-- A number's type; the integers are among them.
pub data IsNumber : AiplType → Type 0 where
  of_i32 : IsNumber i32
  of_i64 : IsNumber i64
  of_f32 : IsNumber f32
  of_f64 : IsNumber f64

pub data IsInteger : AiplType → Type 0 where
  of_i32 : IsInteger i32
  of_i64 : IsInteger i64

is_integer-IsInteger : (t : AiplType) → is_integer t ≡ true → IsInteger t
is_integer-IsInteger i32 h = IsInteger.of_i32
is_integer-IsInteger i64 h = IsInteger.of_i64
is_integer-IsInteger _ h = absurd (cc)

is_number-IsNumber : (t : AiplType) → is_number t ≡ true → IsNumber t
is_number-IsNumber i32 h = IsNumber.of_i32
is_number-IsNumber i64 h = IsNumber.of_i64
is_number-IsNumber f32 h = IsNumber.of_f32
is_number-IsNumber f64 h = IsNumber.of_f64
is_number-IsNumber _ h = absurd (cc)

passed : {E : Type 0} (b : Bool) (e : E) {u : Unit {0}} → fail_if b e ≡ ok u → b ≡ false
passed true e h = cc
passed false e h = refl

refused-not : (b : Bool) → not b ≡ false → b ≡ true
refused-not b h = ground arith

-- Two integers of one type, which is the result's.
abbrev pub Integers : AiplType → AiplType → AiplType → Type 0
Integers t1 t2 t = (t1 ≡ t2) × (t ≡ t1) × IsInteger t1

-- Two numbers of one type, the result's, and integers where the operator takes no others.
abbrev pub Numbers : OpCode → AiplType → AiplType → AiplType → Type 0
Numbers op t1 t2 t = (t1 ≡ t2) × (t ≡ t1) × IsNumber t1 × ((integer_only op ≡ false) ⊎ IsInteger t1)

pub checked_rule-Integers :
    (op : OpCode) (t1 t2 : AiplType) → Holds (Integers t1 t2) (checked_rule op (t1 ∷ t2 ∷ []))
unfolding checked_rule
checked_rule-Integers op t1 t2 =
    Holds-step _ (fail_if (not (type_eq t1 t2)) (binary_mismatch t1 t2)) _ (λ _ same.
      Holds-step _ (fail_if (not (is_integer t1)) (needs_integers op t1)) _ (λ _ whole. (
        type_eq_sound t1 t2 (refused-not _ (passed _ _ same)),
        refl,
        is_integer-IsInteger t1 (refused-not _ (passed _ _ whole)),
      )))

is_number-plain : (t : AiplType) → is_number t ≡ true → special t ≡ false
is_number-plain i32 h = refl
is_number-plain i64 h = refl
is_number-plain f32 h = refl
is_number-plain f64 h = refl
is_number-plain _ h = absurd (cc)

kept_type : (b s : Bool) → s ≡ false → (not b && not s) ≡ false → b ≡ true
kept_type b s e h = ground arith

pick-cases :
    (a b : Bool) {t1 t2 : AiplType}
    → ((if not a && b then t2 else t1) ≡ t1) ⊎ (((if not a && b then t2 else t1) ≡ t2) × (b ≡ true))
pick-cases true b = inl refl
pick-cases false true = inr (refl, refl)
pick-cases false false = inl refl

explained-cases :
    (t1 t2 : AiplType) → (explained t1 t2 ≡ t1) ⊎ ((explained t1 t2 ≡ t2) × (special t2 ≡ true))
explained-cases t1 t2 = pick-cases (special t1) (special t2)

only_number : (n e : Bool) → not (n || e) ≡ false → e ≡ false → n ≡ true
only_number n e h k = ground arith

only_integer : (o w e : Bool) → (o && not (w || e)) ≡ false → e ≡ false → (o ≡ false) ⊎ (w ≡ true)
only_integer o w e h k = ground arith

-- The operand that a message would be about is the first, where it is a number.
explained-number :
    (t1 t2 : AiplType)
    → is_number (explained t1 t2) ≡ true
    → (not (type_eq (explained t1 t2) t2) && not (special (explained t1 t2))) ≡ false
    → (explained t1 t2 ≡ t1) × (t1 ≡ t2)
explained-number t1 t2 number same = elim (explained-cases t1 t2) [
  | inl e ↦
      let first : is_number t1 ≡ true = sym (ap is_number e) ∙ number in
      let plain = is_number-plain t1 first in
      let test : (not (type_eq t1 t2) && not (special t1)) ≡ false =
        sym (ap (λ t. not (type_eq t t2) && not (special t)) e) ∙ same in
      (e, type_eq_sound t1 t2 (kept_type (type_eq t1 t2) (special t1) plain test))
  | inr (e, odd) ↦
      let second : is_number t2 ≡ true = sym (ap is_number e) ∙ number in
      let bad : true ≡ false = sym odd ∙ is_number-plain t2 second in absurd (cc)
]

pub arithmetic_rule-Numbers :
    (op : OpCode) (t1 t2 : AiplType) → Holds (Numbers op t1 t2) (arithmetic_rule op (t1 ∷ t2 ∷ []))
unfolding arithmetic_rule
arithmetic_rule-Numbers op t1 t2 =
    let t = explained t1 t2 in
    let Q = Numbers op t1 t2 in
    Holds-step Q (no_parameter (parameter_arithmetic op) t1 t2) _ (λ _ _.
      Holds-step Q (fail_if (not (type_eq t t2) && not (special t)) (binary_mismatch t t2)) _
        (λ _ same. Holds-step Q (fail_if (is_reference t) (reference_arithmetic op t)) _ (λ _ _.
          Holds-step Q (fail_if (is_union t) (union_arithmetic op t)) _ (λ _ _.
            Holds-step Q (fail_if (is_str t && is_add op) joins_strings) _ (λ _ _.
              Holds-step Q
                (fail_if (integer_only op && not (is_integer t || is_enum t)) (needs_integers op t))
                _
                (λ _ whole.
                  Holds-step Q (fail_if (not (is_number t || is_enum t)) (needs_numbers op t)) _
                    (λ _ number.
                      Holds-step Q (fail_if (is_enum t) (enum_arithmetic op t)) _ (λ _ plain.
                        let number =
                          only_number (is_number t) (is_enum t) (passed _ _ number)
                            (passed _ _ plain) in
                        let (first, same) = explained-number t1 t2 number (passed _ _ same) in
                        (
                          same,
                          first,
                          is_number-IsNumber t1 (sym (ap is_number first) ∙ number),
                          elim (only_integer (integer_only op) (is_integer t) (is_enum t)
                              (passed _ _ whole) (passed _ _ plain)) [
                                | inl e ↦ inl e
                                | inr e ↦
                                    inr (is_integer-IsInteger t1 (sym (ap is_integer first) ∙ e))
                              ],
                        )))))))))

pub bits_rule-IsInteger :
    (op : OpCode) (t : AiplType) → Holds (λ r. (r ≡ t) × IsInteger t) (bits_rule op (t ∷ []))
unfolding bits_rule
bits_rule-IsInteger op t =
    Holds-step _ (fail_if (not (is_integer t)) (needs_integers op t)) _
      (λ _ whole. (refl, is_integer-IsInteger t (refused-not _ (passed _ _ whole))))

-- A result or void: the types that the rule of the comparisons orders and the machine does not.
abbrev pub is_outcome : AiplType → Bool
is_outcome (result_type _ _) = true
is_outcome void = true
is_outcome t = false

-- A storage type, which no expression has.
abbrev pub is_narrow : AiplType → Bool
is_narrow (narrow _) = true
is_narrow t = false

picked : (b : Bool) {a t : AiplType} → b ≡ true → (if b then some a else none) ≡ some t → a ≡ t
picked true e h = cc
picked false e h = cc

unpicked :
    (b : Bool) (a : AiplType) {t : AiplType} {P : Type 0}
    → b ≡ false
    → (if b then some a else none) ≡ some t
    → P
unpicked true a e h = absurd (cc)
unpicked false a e h = absurd (cc)

met :
    (b : Bool) {a t : AiplType} (o : Option AiplType)
    → (if b then some a else o) ≡ some t
    → ((b ≡ true) × (a ≡ t)) ⊎ (o ≡ some t)
met true o h = inl (refl, cc)
met false o h = inr h

meet_functions-reference :
    (a b : AiplType) {t : AiplType} → meet_functions a b ≡ some t → is_reference t ≡ true
meet_functions-reference (fn p r _) (fn q s _) h = elim (Bool-cases (types_eq p q && type_eq r s)) [
  | inl e ↦ sym (ap is_reference (picked (types_eq p q && type_eq r s) e h))
  | inr e ↦ unpicked (types_eq p q && type_eq r s) _ e h
]
meet_functions-reference _ _ h = cc

meet-same :
    (a b : AiplType) {t : AiplType} → meet a b ≡ some t → is_reference t ≡ false → (a ≡ b) × (t ≡ a)
unfolding meet
meet-same a b h plain = elim (met (type_eq a b) _ h) [
  | inl (e, same) ↦ (type_eq_sound a b e, sym same)
  | inr functions ↦
      let bad : true ≡ false = sym (meet_functions-reference a b functions) ∙ plain in absurd (cc)
]

left-IsNumber :
    (t : AiplType)
    → is_union t ≡ false
    → is_struct t ≡ false
    → is_str t ≡ false
    → is_reference t ≡ false
    → is_enum t ≡ false
    → is_bool t ≡ false
    → is_outcome t ≡ false
    → is_narrow t ≡ false
    → IsNumber t
left-IsNumber i32 u s r f e b o n = IsNumber.of_i32
left-IsNumber i64 u s r f e b o n = IsNumber.of_i64
left-IsNumber f32 u s r f e b o n = IsNumber.of_f32
left-IsNumber f64 u s r f e b o n = IsNumber.of_f64
left-IsNumber _ u s r f e b o n = absurd (cc)

-- Two numbers of one type, and integers where they are compared as unsigned; the result is a bool.
abbrev pub Ordered : OpCode → AiplType → AiplType → AiplType → Type 0
Ordered op t1 t2 r =
    (t1 ≡ t2) × (r ≡ bool) × IsNumber t1 × ((is_unsigned op ≡ false) ⊎ IsInteger t1)

order_only : (r e q : Bool) → q ≡ false → ((r || e) && not q) ≡ false → (r ≡ false) × (e ≡ false)
order_only r e q h k = ground arith

bool_only : (b q : Bool) → q ≡ false → (b && not q) ≡ false → b ≡ false
bool_only b q h k = ground arith

unsigned_only : (u w : Bool) → (u && not w) ≡ false → (u ≡ false) ⊎ (w ≡ true)
unsigned_only u w h = ground arith

signed_only : (u o : Bool) → u ≡ false → (not u && o) ≡ false → o ≡ false
signed_only u o e h = ground arith

integer_number : {t : AiplType} → IsInteger t → IsNumber t
integer_number IsInteger.of_i32 = IsNumber.of_i32
integer_number IsInteger.of_i64 = IsNumber.of_i64

moved : (test : AiplType → Bool) {t u : AiplType} → t ≡ u → test t ≡ false → test u ≡ false
moved test e h = sym (ap test e) ∙ h

ok_or-some : (o : Option AiplType) (e : TypeError) {t : AiplType} → ok_or o e ≡ ok t → o ≡ some t
ok_or-some (some a) e h = cc
ok_or-some none e h = cc

pub comparison_rule-Ordered :
    (op : OpCode) (t1 t2 : AiplType)
    → is_equality op ≡ false
    → (not (is_unsigned op) && is_outcome t1) ≡ false
    → is_narrow t1 ≡ false
    → Holds (Ordered op t1 t2) (comparison_rule op (t1 ∷ t2 ∷ []))
unfolding comparison_rule
comparison_rule-Ordered op t1 t2 order apart wide =
    let Q = Ordered op t1 t2 in
    Holds-step Q (no_parameter (parameter_comparison op) t1 t2) _ (λ _ _.
      Holds-step Q (ok_or (meet t1 t2) (comparison_mismatch t1 t2)) _ (λ t found.
        Holds-step Q (fail_if (is_unsigned op && not (is_integer t)) (unsigned_order op t)) _
          (λ _ whole. Holds-step Q (fail_if (is_union t) (union_comparison op t)) _ (λ _ u.
            Holds-step Q (fail_if (is_struct t) (struct_comparison op t)) _ (λ _ s.
              Holds-step Q (fail_if (is_str t) (str_comparison op t)) _ (λ _ r.
                Holds-step Q
                  (fail_if ((is_reference t || is_enum t) && not (is_equality op)) (unordered op t))
                  _
                  (λ _ f.
                    Holds-step Q (fail_if (is_bool t && not (is_equality op)) (bool_order op t)) _
                      (λ _ b.
                        let (reference, an_enum) =
                          order_only (is_reference t) (is_enum t) (is_equality op) order
                            (passed _ _ f) in
                        let boolean = bool_only (is_bool t) (is_equality op) order (passed _ _ b) in
                        let (same, first) =
                          meet-same t1 t2 (ok_or-some (meet t1 t2) _ found) reference in
                        let number : is_outcome t1 ≡ false → IsNumber t1 = λ o.
                          left-IsNumber t1 (moved is_union first (passed _ _ u))
                            (moved is_struct first (passed _ _ s))
                            (moved is_str first (passed _ _ r)) (moved is_reference first reference)
                            (moved is_enum first an_enum) (moved is_bool first boolean) o wide in
                        elim (unsigned_only (is_unsigned op) (is_integer t) (passed _ _ whole)) [
                          | inl e ↦
                              (same, refl, number (signed_only (is_unsigned op) _ e apart), inl e)
                          | inr e ↦
                              let whole = is_integer-IsInteger t1 (sym (ap is_integer first) ∙ e) in
                              (same, refl, integer_number whole, inr whole)
                        ]))))))))
