-- ===== src/Token.antt =====
-- Tokens: `TokenKind`, `Token` and `c_operator` of src/parser.rs.
-- An `f64` or `f32` is its bit pattern, an `i64` the integer that it stands for, and a `u32` line or
-- column a number.
use aipl.Base.{ℕ, ℤ, String, Bool, Option, none, some, ◌||◌, str_eq, if◌then◌else◌}

pub data TokenKind : Type 0 where
  l_paren r_paren l_bracket r_bracket colon arrow : TokenKind
  symbol : String → TokenKind
  int_lit : ℤ → TokenKind
  int64_lit : ℤ → TokenKind
  -- the bits of the value, and the literal as written
  float_lit : ℕ → String → TokenKind
  float32_lit : ℕ → String → TokenKind
  string_lit : String → TokenKind
  bool_lit : Bool → TokenKind

-- A place in the source: line and column.
abbrev pub Pos : Type 0
Pos = ℕ × ℕ

pub record Token : Type 0 where
  pub kind : TokenKind
  pub line : ℕ
  pub col : ℕ

abbrev pub token_pos : Token → Pos
token_pos t = (t.line, t.col)

-- An operator as C writes it: what it means, and the form that AIPL has for it.
pub c_operator : String → Option (String × String)
c_operator op =
    if str_eq op "=" || str_eq op "=="
    then some ("equality", "(eq a b)")
    else if str_eq op "!="
    then some ("inequality", "(neq a b)")
    else if str_eq op "<"
    then some ("less than", "(lt a b)")
    else if str_eq op ">"
    then some ("greater than", "(gt a b)")
    else if str_eq op "<="
    then some ("at most", "(lte a b)")
    else if str_eq op ">="
    then some ("at least", "(gte a b)")
    else if str_eq op "&&"
    then some ("and", "(and a b)")
    else if str_eq op "||"
    then some ("or", "(or a b)")
    else if str_eq op "!"
    then some ("not", "(not a)")
    else none
