-- ===== src/Tokenize/Std.antt =====
-- A parser of decimal integers, for the tests: an optional sign and digits, in the range of an i64.
use Prim.Native.String.append
use aipl.Base.{
  ℕ, zero, suc, ◌≡◌, refl, ap, subst, ◌∙◌, ℤ, pos, negsuc, String, Bool, true, false, ◌&&◌, not,
  Option, none, some, if◌then◌else◌, arith,
}
use aipl.Base.Tests.{&&-split}
use aipl.Word.{InRange, in_range}
use aipl.Text.Decimal.{decimal}
use aipl.Text.Strings.{all_chars, value, value-decimal}
use aipl.Tokenize.Literals.{StdParse, cons, is_empty, is_ascii_digit, signed}
use aipl.Tokenize.Display.{show_int}
use aipl.Tokenize.Numbers.{
  StdLaws, is_number_char, all_chars-imp, decimal-chars, decimal-number, digit-is_number,
}

abbrev with_sign : Bool → ℕ → ℤ
with_sign false n = pos n
with_sign true zero = pos 0
with_sign true (suc n) = negsuc n

unfoldable pub parse_digits : Bool → String → Option ℤ
parse_digits negative rest =
    let v = with_sign negative (value 0 rest) in
    if not (is_empty rest) && all_chars is_ascii_digit rest && in_range 64 v then some v else none

unfoldable pub parse_int : String → Option ℤ
parse_int s = parse_digits (signed s).0 (signed s).1

-- It reads integers, and no floats and no radix.
abbrev pub decimals : StdParse
decimals = record {
  parse_i64 = parse_int;
  parse_f64 = λ s. none;
  to_f32 = λ n. n;
  from_str_radix = λ s r. none;
}

in_range-InRange : (v : ℤ) → in_range 64 v ≡ true → InRange 64 v
in_range-InRange (pos n) h = ground arith
in_range-InRange (negsuc n) h = ground arith

InRange-in_range : (v : ℤ) → InRange 64 v → in_range 64 v ≡ true
InRange-in_range (pos n) h = ground arith
InRange-in_range (negsuc n) h = ground arith

given : (b : Bool) {n v : ℤ} → (if b then some n else none) ≡ some v → (b ≡ true) × (n ≡ v)
given true e = (refl, cc)
given false e = cc

parse_digits-some :
    (negative : Bool) (rest : String) (v : ℤ)
    → parse_digits negative rest ≡ some v
    → (all_chars is_ascii_digit rest ≡ true) × InRange 64 v
unfolding parse_digits
parse_digits-some negative rest v e =
    let n = with_sign negative (value 0 rest) in
    let (test, same) =
      given (not (is_empty rest) && all_chars is_ascii_digit rest && in_range 64 n) e in
    let (front, inside) = &&-split (not (is_empty rest) && all_chars is_ascii_digit rest) _ test in
    let (_, digits) = &&-split (not (is_empty rest)) _ front in
    (digits, subst (InRange 64) same (in_range-InRange n inside))

parse_digits-decimal :
    (negative : Bool) (n : ℕ)
    → InRange 64 (with_sign negative n)
    → parse_digits negative (decimal n) ≡ some (with_sign negative n)
unfolding parse_digits
parse_digits-decimal negative n h =
    rw
      (
        decimal-chars n,
        decimal-number n,
        value-decimal n,
        InRange-in_range (with_sign negative n) h,
      )
      refl

signed-digits : (s : String) → all_chars is_ascii_digit s ≡ true → signed s ≡ (false, s)
signed-digits String.[] h = refl
signed-digits (String.◌∷◌ c s) h = ground arith

signed-chars :
    (s : String) → all_chars is_ascii_digit (signed s).1 ≡ true → all_chars is_number_char s ≡ true
signed-chars String.[] h = refl
signed-chars (String.◌∷◌ c s) h =
    let tail = all_chars-imp is_ascii_digit is_number_char digit-is_number s in ground (arith, tail)

parse_int-show_int : (v : ℤ) → InRange 64 v → parse_int (show_int v) ≡ some v
unfolding parse_int show_int
parse_int-show_int (pos n) h =
    rw (signed-digits (decimal n) (decimal-number n)) (parse_digits-decimal false n h)
parse_int-show_int (negsuc n) h =
    ap parse_int
      (append.cons _ String.[] (decimal (suc n)) ∙ ap (cons _) (append.nil (decimal (suc n))))
    ∙ parse_digits-decimal true (suc n) h

pub decimals-StdLaws : StdLaws decimals
unfolding parse_int
decimals-StdLaws = record {
  parse_shown = parse_int-show_int;
  parse_chars = λ s v e. signed-chars s (parse_digits-some _ _ v e).0;
  parse_in_range = λ s v e. (parse_digits-some (signed s).0 (signed s).1 v e).1;
  radix_in_range = λ s r n e. cc;
}
