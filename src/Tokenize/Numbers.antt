-- ===== src/Tokenize/Numbers.antt =====
-- Numbers as src/parser.rs shows them, and the words that they are read from.
use Prim.Native.String.{◌++◌}
use Prim.Native.String.append
use Prim.Native.Char.{Char}
use aipl.Base.{
  ℕ, zero, suc, ◌^◌, ◌<◌, ltb, ◌/◌, ◌%◌, ◌≡◌, refl, sym, ap, ◌∙◌, ℤ, pos, negsuc, String, is_code,
  str_eq, eq_iff, Bool, true, false, ◌||◌, some, arith, Bool-cases, inl, inr,
}
use aipl.Word.{InRange}
use aipl.Text.Decimal.{digit, decimal, decimal_fuel}
use aipl.Text.Strings.{all_chars, all_chars-append, all_chars-decimal}
use aipl.Tokenize.Literals.{StdParse, is_empty, is_ascii_digit}
use aipl.Tokenize.Display.{show_int}

-- A digit or a sign.
abbrev pub is_number_char : Char → Bool
is_number_char c = is_ascii_digit c || (is_code c b'-' || is_code c b'+')

-- What the tokenizer relies on of the library: an i64 is parsed from digits and a sign, is parsed again
-- as it is displayed, and is in range, and a u64 is below 2 ^ 64.
pub record StdLaws (std : StdParse) : Type 0 where
  pub parse_shown : (v : ℤ) → InRange 64 v → std.parse_i64 (show_int v) ≡ some v
  pub parse_chars :
      (s : String) (v : ℤ) → std.parse_i64 s ≡ some v → all_chars is_number_char s ≡ true
  pub parse_in_range : (s : String) (v : ℤ) → std.parse_i64 s ≡ some v → InRange 64 v
  pub radix_in_range : (s : String) (r n : ℕ) → std.from_str_radix s r ≡ some n → n < 2 ^ 64

-- A text of other characters is another text.
pub str_eq-other :
    (p : Char → Bool) (s t : String)
    → all_chars p s ≡ true
    → all_chars p t ≡ false
    → str_eq s t ≡ false
str_eq-other p s t h k = elim (Bool-cases (str_eq s t)) [
  | inl e ↦
      let same : s ≡ t = (eq_iff s t).0 e in
      let bad : true ≡ false = sym h ∙ ap (all_chars p) same ∙ k in absurd (cc)
  | inr e ↦ e
]

pub all_chars-imp :
    (p q : Char → Bool)
    → ((c : Char) → p c ≡ true → q c ≡ true)
    → (s : String) → all_chars p s ≡ true
    → all_chars q s ≡ true
all_chars-imp p q imp String.[] h = refl
all_chars-imp p q imp (String.◌∷◌ c s) h =
    let ih = all_chars-imp p q imp s in let head = imp c in ground (arith, ih, head)

digit-number : (n : ℕ) → all_chars is_ascii_digit (digit n) ≡ true
digit-number zero = refl
digit-number (suc zero) = refl
digit-number (suc (suc zero)) = refl
digit-number (suc (suc (suc zero))) = refl
digit-number (suc (suc (suc (suc zero)))) = refl
digit-number (suc (suc (suc (suc (suc zero))))) = refl
digit-number (suc (suc (suc (suc (suc (suc zero)))))) = refl
digit-number (suc (suc (suc (suc (suc (suc (suc zero))))))) = refl
digit-number (suc (suc (suc (suc (suc (suc (suc (suc zero)))))))) = refl
digit-number _ = refl

digit-chars : (n : ℕ) → is_empty (digit n) ≡ false
digit-chars zero = refl
digit-chars (suc zero) = refl
digit-chars (suc (suc zero)) = refl
digit-chars (suc (suc (suc zero))) = refl
digit-chars (suc (suc (suc (suc zero)))) = refl
digit-chars (suc (suc (suc (suc (suc zero))))) = refl
digit-chars (suc (suc (suc (suc (suc (suc zero)))))) = refl
digit-chars (suc (suc (suc (suc (suc (suc (suc zero))))))) = refl
digit-chars (suc (suc (suc (suc (suc (suc (suc (suc zero)))))))) = refl
digit-chars _ = refl

pub is_empty-append : (s t : String) → is_empty s ≡ false → is_empty (s ++ t) ≡ false
is_empty-append String.[] t h = absurd (cc)
is_empty-append (String.◌∷◌ c s) t h = ap is_empty (append.cons c s t)

decimal_fuel-chars : (f n : ℕ) → is_empty (decimal_fuel f n) ≡ false
unfolding decimal_fuel
decimal_fuel-chars zero n = digit-chars n
decimal_fuel-chars (suc f) n = elim (Bool-cases (ltb n 10)) [
  | inl e ↦ rw e (digit-chars n)
  | inr e ↦
      rw e
        (is_empty-append (decimal_fuel f (n / 10)) (digit (n % 10)) (decimal_fuel-chars f (n / 10)))
]

pub decimal-chars : (n : ℕ) → is_empty (decimal n) ≡ false
unfolding decimal
decimal-chars n = decimal_fuel-chars n n

pub decimal-number : (n : ℕ) → all_chars is_ascii_digit (decimal n) ≡ true
decimal-number = all_chars-decimal is_ascii_digit digit-number

pub digit-is_number : (c : Char) → is_ascii_digit c ≡ true → is_number_char c ≡ true
digit-is_number c h = ground arith

pub show_int-number : (v : ℤ) → all_chars is_number_char (show_int v) ≡ true
unfolding show_int
show_int-number (pos n) = all_chars-imp _ _ digit-is_number (decimal n) (decimal-number n)
show_int-number (negsuc n) =
    all_chars-append is_number_char "-" (decimal (suc n))
    ∙ all_chars-imp _ _ digit-is_number (decimal (suc n)) (decimal-number (suc n))

pub show_int-chars : (v : ℤ) → is_empty (show_int v) ≡ false
unfolding show_int
show_int-chars (pos n) = decimal-chars n
show_int-chars (negsuc n) = is_empty-append "-" (decimal (suc n)) refl
