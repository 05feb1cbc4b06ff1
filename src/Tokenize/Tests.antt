-- ===== src/Tokenize/Tests.antt =====
-- The tokenizer at a concrete text.
use aipl.Base.{
  ◌≡◌, ◌≢◌, refl, none, List, [], ◌∷◌, map, ok, err, String, true, false, arith, pos, negsuc,
}
use aipl.Token.{
  Token, TokenKind, l_paren, r_paren, symbol, string_lit, arrow, int_lit, int64_lit, bool_lit,
}
use aipl.Tokenize.Literals.{
  StdParse, word_kind, plain_int, wide_int, short_float, long_float, radix_literal, strip_suffix,
  any_char,
}
use aipl.Tokenize.Scan.{
  out_of_fuel, unterminated, tokenize, tokenize_from, tokenize_step, scan_string, scan_escape,
  unescape, scan_comment, scan_word, token_at, mark_kind, chars, ends_word,
}
use aipl.Tokenize.Std.{decimals, decimals-StdLaws, parse_int, parse_digits}
use aipl.Tokenize.Again.{tokenize_again}
use aipl.Tokenize.Ends.{tokenize-ne-out_of_fuel}
use aipl.Tokenize.RoundTrip.{source_text, tokenize-literals}

abbrev no_numbers : StdParse
no_numbers = record {
  parse_i64 = λ s. none;
  parse_f64 = λ s. none;
  to_f32 = λ n. n;
  from_str_radix = λ s r. none;
}

abbrev input : String
input = "(f -> 07 -2i64 true \"a\\n\") ; end"

abbrev tokens : List Token
tokens =
    token_at 1 1 l_paren
    ∷ token_at 1 2 (symbol "f")
    ∷ token_at 1 4 arrow
    ∷ token_at 1 7 (int_lit (pos 7))
    ∷ token_at 1 10 (int64_lit (negsuc 1))
    ∷ token_at 1 16 (bool_lit true)
    ∷ token_at 1 21 (string_lit "a\n")
    ∷ token_at 1 26 r_paren
    ∷ []

scanned : tokenize decimals input ≡ ok tokens
unfolding tokenize tokenize_from tokenize_step scan_string scan_escape unescape scan_word
    scan_comment mark_kind chars ends_word word_kind plain_int wide_int short_float long_float
    radix_literal strip_suffix any_char parse_int parse_digits
scanned = refl

tokenize_again_example :
    (again : List Token) × (tokenize decimals (source_text (map (λ t. t.kind) tokens)) ≡ ok again)
    × (map (λ t. t.kind) again ≡ map (λ t. t.kind) tokens)
tokenize_again_example = tokenize_again decimals decimals-StdLaws input tokens scanned

tokenize-ne-out_of_fuel_example : tokenize no_numbers "(f \"a" ≢ err out_of_fuel
tokenize-ne-out_of_fuel_example = tokenize-ne-out_of_fuel no_numbers "(f \"a"

unterminated_text : tokenize no_numbers "(f \"a" ≡ err (unterminated (1, 4))
unfolding tokenize tokenize_from tokenize_step scan_string scan_word mark_kind chars ends_word
    word_kind plain_int wide_int short_float long_float radix_literal strip_suffix any_char
unterminated_text = refl

abbrev literals : List TokenKind
literals = l_paren ∷ int64_lit (negsuc 0) ∷ bool_lit false ∷ arrow ∷ string_lit "\"\\" ∷ []

tokenize-literals_example :
    (ts : List Token) × (tokenize decimals (source_text literals) ≡ ok ts)
    × (map (λ t. t.kind) ts ≡ literals)
tokenize-literals_example =
    tokenize-literals decimals decimals-StdLaws literals (tt, (omega arith, (tt, (tt, (tt, tt)))))
