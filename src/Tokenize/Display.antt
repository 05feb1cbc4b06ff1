-- ===== src/Tokenize/Display.antt =====
-- How a token is shown: `Display for TokenKind` of src/parser.rs. Each function gives what is written
-- followed by a tail.
use Prim.Native.String.{◌++◌}
use Prim.Native.Char.{char}
use aipl.Base.{suc, ℤ, pos, negsuc, String, Char, is_code, true, false, if◌then◌else◌}
use aipl.Text.Decimal.{decimal}
use aipl.Token.{
  TokenKind, l_paren, r_paren, l_bracket, r_bracket, colon, arrow, symbol, int_lit, int64_lit,
  float_lit, float32_lit, string_lit, bool_lit,
}
use aipl.Tokenize.Literals.{cons}
use aipl.Tokenize.Scan.{backslash, double_quote}

unfoldable pub show_char : Char → String → String
show_char c tail =
    if is_code c 34
    then cons backslash (cons double_quote tail)
    else if is_code c 92
    then cons backslash (cons backslash tail)
    else if is_code c 10
    then cons backslash (cons (char 110 tt) tail)
    else if is_code c 9
    then cons backslash (cons (char 116 tt) tail)
    else if is_code c 13
    then cons backslash (cons (char 114 tt) tail)
    else if is_code c 0
    then cons backslash (cons (char 48 tt) tail)
    else cons c tail

unfoldable pub show_text : String → String → String
show_text String.[] tail = tail
show_text (String.◌∷◌ c s) tail = show_char c (show_text s tail)

unfoldable pub show_int : ℤ → String
show_int (pos n) = decimal n
show_int (negsuc n) = "-" ++ decimal (suc n)

-- A token that is a word, as it is written.
unfoldable pub word_of : TokenKind → String
word_of arrow = "->"
word_of (symbol s) = s
word_of (int_lit v) = show_int v
word_of (int64_lit v) = show_int v ++ "i64"
word_of (float_lit _ text) = text
word_of (float32_lit _ text) = text
word_of (bool_lit true) = "true"
word_of (bool_lit false) = "false"
word_of _ = ""

unfoldable pub display : TokenKind → String → String
display l_paren tail = cons (char 40 tt) tail
display r_paren tail = cons (char 41 tt) tail
display l_bracket tail = cons (char 91 tt) tail
display r_bracket tail = cons (char 93 tt) tail
display colon tail = cons (char 58 tt) tail
display (string_lit s) tail = cons double_quote (show_text s (cons double_quote tail))
display k tail = word_of k ++ tail
