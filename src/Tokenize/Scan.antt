-- ===== src/Tokenize/Scan.antt =====
-- The loops of `Parser::tokenize` in src/parser.rs.
use aipl.Base.{
  ℕ, zero, suc, ◌+◌, String, Char, is_code, Bool, ◌||◌, Option, none, some, List, [], ◌∷◌, Result,
  ok, err, ◌>>=◌, if◌then◌else◌,
}
use Prim.Native.Char.{char, nul}
use aipl.Scopes.Shown.{is_whitespace}
use aipl.Token.{Token, TokenKind, Pos, l_paren, r_paren, l_bracket, r_bracket, colon, string_lit}
use aipl.Tokenize.Literals.{StdParse, cons, word_kind}

pub data TokenError : Type 0 where
  -- where the literal starts
  unterminated : Pos → TokenError
  unknown_escape : Pos → Char → TokenError
  odd_whitespace : Pos → Char → TokenError
  out_of_fuel : TokenError

abbrev pub newline : Char
newline = char 10 tt

abbrev pub tab : Char
tab = char 9 tt

abbrev pub carriage_return : Char
carriage_return = char 13 tt

abbrev pub backslash : Char
backslash = char 92 tt

abbrev pub double_quote : Char
double_quote = char 34 tt

-- What an escape stands for.
unfoldable pub unescape : Char → Option Char
unescape c =
    if is_code c b'n'
    then some newline
    else if is_code c b't'
    then some tab
    else if is_code c b'r'
    then some carriage_return
    else if is_code c b'0'
    then some nul
    else if is_code c 92
    then some backslash
    else if is_code c 34
    then some double_quote
    else none

-- What a scan inside a token gives: the token's text, what is left of the input, and the column.
abbrev pub Scanned : Type 0
Scanned = Result TokenError (String × String × ℕ)

abbrev pub with_char : Char → Scanned → Scanned
with_char c found = found >>= λ (s, rest, col). ok (cons c s, rest, col)

-- A string literal after its open quote, which stands at `start`.
module _ (start : Pos) (line : ℕ) where
  unfoldable mutual
    pub scan_string : ℕ → String → Scanned
    scan_string col String.[] = err (unterminated start)
    scan_string col (String.◌∷◌ c more) =
        let plain = with_char c (scan_string (col + 1) more) in
        let escape = scan_escape (col + 1) more in
        if is_code c 34
        then ok (String.[], more, col + 1)
        else if is_code c 10
        then err (unterminated start)
        else if is_code c 92
        then escape
        else plain

    -- After a backslash.
    pub scan_escape : ℕ → String → Scanned
    scan_escape col String.[] = err (unterminated start)
    scan_escape col (String.◌∷◌ c more) =
        let rest = scan_string (col + 1) more in
        elim (unescape c) [ none ↦ err (unknown_escape (line, col) c) | some e ↦ with_char e rest ]

-- A comment: what is left after it, and its line and column.
unfoldable pub scan_comment : ℕ → ℕ → String → String × ℕ × ℕ
scan_comment line col String.[] = (String.[], line, col)
scan_comment line col (String.◌∷◌ c more) =
    let later = scan_comment line (col + 1) more in
    if is_code c 10 then (more, line + 1, 1) else later

-- What ends a word.
unfoldable pub ends_word : Char → Bool
ends_word c =
    is_whitespace c
    || is_code c b'('
    || is_code c b')'
    || is_code c b'['
    || is_code c b']'
    || is_code c b':'

unfoldable pub scan_word : ℕ → String → String × String × ℕ
scan_word col String.[] = (String.[], String.[], col)
scan_word col (String.◌∷◌ c more) =
    let (word, rest, col') = scan_word (col + 1) more in
    if ends_word c then (String.[], cons c more, col) else (cons c word, rest, col')

-- A token of one character.
unfoldable pub mark_kind : Char → Option TokenKind
mark_kind c =
    if is_code c b'('
    then some l_paren
    else if is_code c b')'
    then some r_paren
    else if is_code c b'['
    then some l_bracket
    else if is_code c b']'
    then some r_bracket
    else if is_code c b':'
    then some colon
    else none

abbrev pub token_at : ℕ → ℕ → TokenKind → Token
token_at line col k = record { kind = k; line = line; col = col }

abbrev pub is_blank : Char → Bool
is_blank c = is_code c 32 || is_code c 9 || is_code c 13

abbrev pub Tokens : Type 0
Tokens = Result TokenError (List Token)

abbrev pub before : Token → Tokens → Tokens
before t found = found >>= λ ts. ok (t ∷ ts)

-- How many characters a text has.
unfoldable pub chars : String → ℕ
chars String.[] = 0
chars (String.◌∷◌ c s) = suc (chars s)

module _ (std : StdParse) where
  -- The body of the loop, at a character; `go` is the loop after it.
  unfoldable pub tokenize_step : (ℕ → ℕ → String → Tokens) → ℕ → ℕ → Char → String → Tokens
  tokenize_step go line col c more =
      if is_blank c
      then go line (col + 1) more
      else if is_code c 10
      then go (line + 1) 1 more
      else elim (mark_kind c) [
        | some k ↦ before (token_at line col k) (go line (col + 1) more)
        | none ↦
            if is_code c 34
            then (scan_string (line, col) line (col + 1) more >>= λ (s, rest, col').
                before (token_at line col (string_lit s)) (go line col' rest))
            else if is_code c 59
            then (let (rest, line', col') = scan_comment line col (cons c more) in
                go line' col' rest)
            else if is_whitespace c
            then err (odd_whitespace (line, col) c)
            else let (word, rest, col') = scan_word col (cons c more) in
              elim (word_kind std word) [
                | none ↦ go line col' rest
                | some k ↦ before (token_at line col k) (go line col' rest)
              ]
      ]

  unfoldable pub tokenize_from : ℕ → ℕ → ℕ → String → Tokens
  tokenize_from fuel line col String.[] = ok []
  tokenize_from zero line col (String.◌∷◌ c more) = err out_of_fuel
  tokenize_from (suc fuel) line col (String.◌∷◌ c more) =
      tokenize_step (tokenize_from fuel) line col c more

  unfoldable pub tokenize : String → Tokens
  tokenize input = tokenize_from (chars input) 1 1 input
