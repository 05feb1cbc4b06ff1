-- ===== src/Tokenize/Shown.antt =====
-- The words of numbers as src/parser.rs shows them, and what `word_kind` makes of them.
use Prim.Native.String.{◌++◌}
use Prim.Native.String.append
use Prim.Native.Char.{Char}
use aipl.Base.{
  ◌≡◌, refl, sym, ap, ◌∙◌, ℤ, String, is_code, str_eq, eq_iff, Bool, true, false, ◌&&◌, ◌||◌, not,
  none, some, arith, Bool-cases, Option-cases, inl, inr,
}
use aipl.Word.{InRange}
use aipl.Text.Strings.{all_chars, all_chars-append}
use aipl.Token.{int_lit, int64_lit}
use aipl.Tokenize.Literals.{
  StdParse, cons, is_empty, strip_suffix, signed, radix_prefix, radix_literal, plain_int, wide_int,
  word_kind,
}
use aipl.Tokenize.Scan.{ends_word, chars}
use aipl.Tokenize.Display.{show_int}
use aipl.Tokenize.Words.{is_word, Begins, chars-append}
use aipl.Tokenize.Numbers.{
  is_number_char, StdLaws, str_eq-other, all_chars-imp, show_int-number, show_int-chars,
}

-- A character of a number that is shown, with its suffix.
abbrev pub is_shown_char : Char → Bool
is_shown_char c = is_number_char c || (is_code c b'i' || (is_code c b'6' || is_code c b'4'))

number-is_shown : (c : Char) → is_number_char c ≡ true → is_shown_char c ≡ true
number-is_shown c h = ground arith

shown-word : (c : Char) → is_shown_char c ≡ true → not (ends_word c) ≡ true
unfolding ends_word
shown-word c h = ground arith

pub shown-is_word : (s : String) → all_chars is_shown_char s ≡ true → is_word s ≡ true
shown-is_word = all_chars-imp is_shown_char (λ c. not (ends_word c)) shown-word

pub shown-Begins : (s : String) → all_chars is_shown_char s ≡ true → is_empty s ≡ false → Begins s
shown-Begins String.[] h e = absurd (cc)
shown-Begins (String.◌∷◌ c s) h e = (ground arith, ground arith)

pub show_int-shown : (v : ℤ) → all_chars is_shown_char (show_int v) ≡ true
show_int-shown v =
    all_chars-imp is_number_char is_shown_char number-is_shown (show_int v) (show_int-number v)

pub wide-shown : (v : ℤ) → all_chars is_shown_char (show_int v ++ "i64") ≡ true
wide-shown v = all_chars-append is_shown_char (show_int v) "i64" ∙ rw (show_int-shown v) refl

module _ (std : StdParse) (laws : StdLaws std) where
  pub word_kind-show_int : (v : ℤ) → InRange 64 v → word_kind std (show_int v) ≡ some (int_lit v)
  unfolding word_kind plain_int
  word_kind-show_int v h =
      let shown = show_int-shown v in
      rw
        (
          str_eq-other is_shown_char (show_int v) "->" shown refl,
          str_eq-other is_shown_char (show_int v) "true" shown refl,
          str_eq-other is_shown_char (show_int v) "false" shown refl,
          laws.parse_shown v h,
        )
        refl

-- Neither `0x` nor `0b` begins it.
radix_prefix-shown : (s : String) → all_chars is_shown_char s ≡ true → radix_prefix s ≡ none
radix_prefix-shown String.[] h = refl
radix_prefix-shown (String.◌∷◌ z String.[]) h = refl
radix_prefix-shown (String.◌∷◌ z (String.◌∷◌ x digits)) h = ground arith

signed-shown :
    (s : String) → all_chars is_shown_char s ≡ true → all_chars is_shown_char (signed s).1 ≡ true
signed-shown String.[] h = refl
signed-shown (String.◌∷◌ c s) h = ground arith

radix_literal-shown :
    (std : StdParse) (s : String) (wide : Bool)
    → all_chars is_shown_char s ≡ true
    → radix_literal std s wide ≡ none
unfolding radix_literal
radix_literal-shown std s wide h =
    rw (radix_prefix-shown (signed s).1 (signed-shown s h), radix_literal) refl

longer-other : (c : Char) (s : String) → str_eq (cons c (s ++ "i64")) "i64" ≡ false
unfolding chars
longer-other c s = elim (Bool-cases (str_eq (cons c (s ++ "i64")) "i64")) [
  | inl e ↦
      let same : cons c (s ++ "i64") ≡ "i64" = (eq_iff (cons c (s ++ "i64")) "i64").0 e in
      let long = ap chars same in absurd (omega (arith, long, chars-append s "i64"))
  | inr e ↦ e
]

strip_suffix-i64 : (s : String) → strip_suffix "i64" (s ++ "i64") ≡ some s
unfolding strip_suffix
strip_suffix-i64 String.[] = ap (strip_suffix "i64") (append.nil "i64")
strip_suffix-i64 (String.◌∷◌ c s) =
    ap (strip_suffix "i64") (append.cons c s "i64") ∙ rw (longer-other c s, strip_suffix-i64 s) refl

-- No i64 is parsed from a text with the suffix.
no_i64 : (std : StdParse) → StdLaws std → (s : String) → std.parse_i64 (s ++ "i64") ≡ none
no_i64 std laws s = elim (Option-cases (std.parse_i64 (s ++ "i64"))) [
  | inl e ↦ e
  | inr (v, e) ↦
      let whole : (all_chars is_number_char s && false) ≡ true =
        sym (all_chars-append is_number_char s "i64") ∙ laws.parse_chars _ v e in
      let bad : true ≡ false = ground arith in absurd (cc)
]

pub word_kind-wide :
    (std : StdParse)
    → StdLaws std
    → (v : ℤ) → InRange 64 v
    → word_kind std (show_int v ++ "i64") ≡ some (int64_lit v)
unfolding word_kind plain_int wide_int
word_kind-wide std laws v h =
    let w = show_int v ++ "i64" in
    let shown = wide-shown v in
    rw
      (
        str_eq-other is_shown_char w "->" shown refl,
        str_eq-other is_shown_char w "true" shown refl,
        str_eq-other is_shown_char w "false" shown refl,
        no_i64 std laws (show_int v),
        radix_literal-shown std w false shown,
        strip_suffix-i64 (show_int v),
        show_int-chars v,
        laws.parse_shown v h,
      )
      refl
