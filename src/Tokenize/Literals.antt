-- ===== src/Tokenize/Literals.antt =====
-- Which token a word is: the literals of `tokenize`, and `radix_literal`, of src/parser.rs.
use aipl.Base.{
  ℕ, ◌-◌, ◌^◌, ltb, leb, ◌==◌, ℤ, String, Char, code, is_code, str_eq, Bool, true, false, ◌&&◌,
  ◌||◌, not, Option, none, some, if◌then◌else◌,
}
use aipl.Word.{wrap, from_bits}
use aipl.Base.{neg}
use aipl.Text.Strings.{all_chars}
use aipl.Token.{TokenKind, arrow, symbol, int_lit, int64_lit, float_lit, float32_lit, bool_lit}

-- The parsers of Rust's library. The bits of an `f64` and of the `f32` nearest to it stand for them.
pub record StdParse : Type 0 where
  pub parse_i64 : String → Option ℤ
  pub parse_f64 : String → Option ℕ
  pub to_f32 : ℕ → ℕ
  pub from_str_radix : String → ℕ → Option ℕ

abbrev pub cons : Char → String → String
cons c s = String.◌∷◌ c s

abbrev pub is_empty : String → Bool
is_empty String.[] = true
is_empty (String.◌∷◌ c s) = false

unfoldable pub strip_suffix : String → String → Option String
strip_suffix suffix String.[] = if is_empty suffix then some String.[] else none
strip_suffix suffix (String.◌∷◌ c s) =
    let later = strip_suffix suffix s in
    if str_eq (cons c s) suffix
    then some String.[]
    else elim later [ none ↦ none | some front ↦ some (cons c front) ]

abbrev pub is_ascii_digit : Char → Bool
is_ascii_digit c = leb 48 (code c) && leb (code c) 57

-- `is_digit(radix)`, of radix 16 or 2.
abbrev pub is_digit : ℕ → Char → Bool
is_digit radix c =
    if radix == 2
    then leb 48 (code c) && leb (code c) 49
    else is_ascii_digit c
      || (leb 65 (code c) && leb (code c) 70)
      || (leb 97 (code c) && leb (code c) 102)

unfoldable pub any_char : (Char → Bool) → String → Bool
any_char p String.[] = false
any_char p (String.◌∷◌ c s) = p c || any_char p s

-- `digits.replace('_', "")`.
unfoldable pub without_underscores : String → String
without_underscores String.[] = String.[]
without_underscores (String.◌∷◌ c s) =
    let rest = without_underscores s in if is_code c b'_' then rest else cons c rest

-- The digits are empty, begin or end with `_`, or hold two in a row: `after` says whether one stands
-- before the text, or nothing does.
unfoldable pub misplaced_underscore : Bool → String → Bool
misplaced_underscore after String.[] = after
misplaced_underscore after (String.◌∷◌ c s) =
    if is_code c b'_' then after || misplaced_underscore true s else misplaced_underscore false s

-- The sign, and what is left.
abbrev pub signed : String → Bool × String
signed String.[] = (false, String.[])
signed (String.◌∷◌ c s) =
    if is_code c b'-' then (true, s) else if is_code c b'+' then (false, s) else (false, cons c s)

-- The radix that a prefix `0x` or `0b` gives, and the digits after it.
abbrev pub radix_prefix : String → Option (ℕ × String)
radix_prefix (String.◌∷◌ z (String.◌∷◌ x digits)) =
    if is_code z b'0' && is_code x b'x'
    then some (16, digits)
    else if is_code z b'0' && is_code x b'b'
    then some (2, digits)
    else none
radix_prefix _ = none

unfoldable pub radix_literal : StdParse → String → Bool → Option ℤ
radix_literal std text wide =
    let (negative, rest) = signed text in
    elim (radix_prefix rest) [
      | none ↦ none
      | some (radix, digits) ↦
          if misplaced_underscore true digits
          then none
          else if not (all_chars (λ c. is_code c b'_' || is_digit radix c) digits)
          then none
          else elim (std.from_str_radix (without_underscores digits) radix) [
            | none ↦ none
            | some magnitude ↦
                if not wide && ltb (2 ^ 63 - 1) magnitude
                then none
                else let value = from_bits 64 magnitude in
                  some (if negative then wrap 64 (neg value) else value)
          ]
    ]

abbrev pub or_else {ℓ} : {A : Type ℓ} → Option A → Option A → Option A
or_else (some a) b = some a
or_else none b = b

unfoldable pub plain_int : StdParse → String → Option ℤ
plain_int std s = or_else (std.parse_i64 s) (radix_literal std s false)

unfoldable pub wide_int : StdParse → String → Option ℤ
wide_int std s = elim (strip_suffix "i64" s) [
  | none ↦ none
  | some digits ↦
      if is_empty digits
      then none
      else or_else (std.parse_i64 digits) (radix_literal std digits true)
]

abbrev has_dot_and_digit : String → Bool
has_dot_and_digit s = any_char (λ c. is_code c b'.') s && any_char is_ascii_digit s

unfoldable pub short_float : StdParse → String → Option ℕ
short_float std s = elim (strip_suffix "f32" s) [
  | none ↦ none
  | some digits ↦ if has_dot_and_digit digits then std.parse_f64 digits else none
]

unfoldable pub long_float : StdParse → String → Option ℕ
long_float std s = if has_dot_and_digit s then std.parse_f64 s else none

-- The token that a word is; an empty word is none.
unfoldable pub word_kind : StdParse → String → Option TokenKind
word_kind std s =
    if str_eq s "->"
    then some arrow
    else if str_eq s "true"
    then some (bool_lit true)
    else if str_eq s "false"
    then some (bool_lit false)
    else elim (plain_int std s) [
      | some i ↦ some (int_lit i)
      | none ↦ elim (wide_int std s) [
        | some i ↦ some (int64_lit i)
        | none ↦ elim (short_float std s) [
          | some f ↦ some (float32_lit (std.to_f32 f) s)
          | none ↦ elim (long_float std s) [
            | some f ↦ some (float_lit f s)
            | none ↦ if is_empty s then none else some (symbol s)
          ]
        ]
      ]
    ]
