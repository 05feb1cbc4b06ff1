-- ===== src/Tokenize/Words.antt =====
-- Scanning a shown text or a word: the inner loops of `Parser::tokenize` in src/parser.rs.
use Prim.Native.String.{◌++◌}
use Prim.Native.String.append
use Prim.Native.Char.{Char, char, nul}
use text.Mathlib.TextEquality.{Char-path}
use aipl.Base.{
  ℕ, suc, ◌+◌, ◌≤◌, ◌≡◌, refl, sym, ap, subst, ◌∙◌, String, code, is_code, Bool, true, false, ◌||◌,
  not, none, some, ok, if◌then◌else◌, arith, Bool-cases, inl, inr, ==_iff,
}
use aipl.Base.Tests.{&&-split}
use aipl.Scopes.Shown.{is_whitespace}
use aipl.Text.Strings.{all_chars}
use aipl.Token.{l_paren, r_paren, l_bracket, r_bracket, colon}
use aipl.Tokenize.Literals.{cons}
use aipl.Tokenize.Scan.{
  newline, tab, carriage_return, backslash, double_quote, unescape, with_char, scan_string,
  scan_escape, scan_word, ends_word, mark_kind, is_blank, chars,
}
use aipl.Tokenize.Display.{show_char, show_text}

abbrev pub space : Char
space = char 32 tt

module _ (start : ℕ × ℕ) (line : ℕ) where
  -- One shown character is scanned as itself.
  abbrev ScansAs : Char → ℕ → String → Type 0
  ScansAs c col tail =
      (col' : ℕ) × (scan_string start line col (show_char c tail)
        ≡ with_char c (scan_string start line col' tail))

  scan_string-quote : (col : ℕ) (tail : String) → ScansAs double_quote col tail
  unfolding scan_string scan_escape show_char unescape
  scan_string-quote col tail = (col + 1 + 1, refl)

  scan_string-backslash : (col : ℕ) (tail : String) → ScansAs backslash col tail
  unfolding scan_string scan_escape show_char unescape
  scan_string-backslash col tail = (col + 1 + 1, refl)

  scan_string-newline : (col : ℕ) (tail : String) → ScansAs newline col tail
  unfolding scan_string scan_escape show_char unescape
  scan_string-newline col tail = (col + 1 + 1, refl)

  scan_string-tab : (col : ℕ) (tail : String) → ScansAs tab col tail
  unfolding scan_string scan_escape show_char unescape
  scan_string-tab col tail = (col + 1 + 1, refl)

  scan_string-return : (col : ℕ) (tail : String) → ScansAs carriage_return col tail
  unfolding scan_string scan_escape show_char unescape
  scan_string-return col tail = (col + 1 + 1, refl)

  scan_string-nul : (col : ℕ) (tail : String) → ScansAs nul col tail
  unfolding scan_string scan_escape show_char unescape
  scan_string-nul col tail = (col + 1 + 1, refl)

  scan_string-plain :
      (c : Char) (col : ℕ) (tail : String)
      → is_code c 34 ≡ false
      → is_code c 92 ≡ false
      → is_code c 10 ≡ false
      → is_code c 9 ≡ false
      → is_code c 13 ≡ false
      → is_code c 0 ≡ false
      → ScansAs c col tail
  unfolding scan_string show_char
  scan_string-plain c col tail a b d e f g = (col + 1, rw (a, b, d, e, f, g) (rw (a, b, d) refl))

  named :
      (c d : Char) (col : ℕ) (tail : String)
      → is_code c (code d) ≡ true
      → ScansAs d col tail
      → ScansAs c col tail
  named c d col tail e h =
      subst (λ x. ScansAs x col tail) (sym (Char-path c d ((==_iff (code c) (code d)).0 e))) h

  scan_string-show_char : (c : Char) (col : ℕ) (tail : String) → ScansAs c col tail
  scan_string-show_char c col tail = elim (Bool-cases (is_code c 34)) [
    | inl e ↦ named c double_quote col tail e (scan_string-quote col tail)
    | inr a ↦ elim (Bool-cases (is_code c 92)) [
      | inl e ↦ named c backslash col tail e (scan_string-backslash col tail)
      | inr b ↦ elim (Bool-cases (is_code c 10)) [
        | inl e ↦ named c newline col tail e (scan_string-newline col tail)
        | inr d ↦ elim (Bool-cases (is_code c 9)) [
          | inl e ↦ named c tab col tail e (scan_string-tab col tail)
          | inr t ↦ elim (Bool-cases (is_code c 13)) [
            | inl e ↦ named c carriage_return col tail e (scan_string-return col tail)
            | inr r ↦ elim (Bool-cases (is_code c 0)) [
              | inl e ↦ named c nul col tail e (scan_string-nul col tail)
              | inr z ↦ scan_string-plain c col tail a b d t r z
            ]
          ]
        ]
      ]
    ]
  ]

  -- A shown text and the quote after it are scanned as the text.
  pub scan_string-show_text :
      (s : String) (col : ℕ) (tail : String)
      → (col' : ℕ) × (scan_string start line col (show_text s (cons double_quote tail))
          ≡ ok (s, tail, col'))
  unfolding scan_string show_text
  scan_string-show_text String.[] col tail = (col + 1, refl)
  scan_string-show_text (String.◌∷◌ c s) col tail =
      let (next, e) = scan_string-show_char c col (show_text s (cons double_quote tail)) in
      let (end, ih) = scan_string-show_text s next tail in (end, e ∙ ap (with_char c) ih)

-- A word that begins with neither a quote nor a semicolon.
abbrev pub Begins : String → Type 0
Begins String.[] = ⊥
Begins (String.◌∷◌ c _) = (is_code c 34 ≡ false) × (is_code c 59 ≡ false)

-- No character of a word ends it.
abbrev pub is_word : String → Bool
is_word s = all_chars (λ c. not (ends_word c)) s

pub word-cons :
    (c : Char) (w : String) → is_word (cons c w) ≡ true → (ends_word c ≡ false) × (is_word w ≡ true)
word-cons c w h = let (p, q) = &&-split (not (ends_word c)) _ h in (ground arith, q)

space-ends : ends_word space ≡ true
unfolding ends_word
space-ends = refl

pub scan_word-word :
    (w : String) (col : ℕ) (tail : String)
    → is_word w ≡ true
    → (col' : ℕ) × (scan_word col (w ++ cons space tail) ≡ (w, cons space tail, col'))
unfolding scan_word
scan_word-word String.[] col tail h =
    (col, ap (scan_word col) (append.nil (cons space tail)) ∙ rw space-ends refl)
scan_word-word (String.◌∷◌ c w) col tail h =
    let (plain, rest) = word-cons c w h in
    let (end, ih) = scan_word-word w (col + 1) tail rest in
    (end, ap (scan_word col) (append.cons c w (cons space tail)) ∙ rw (plain, ih) refl)

pub visible-blank :
    (c : Char) → is_whitespace c ≡ false → (is_blank c ≡ false) × (is_code c 10 ≡ false)
visible-blank c h = (ground arith, ground arith)

parts :
    (w a b d e f : Bool)
    → (w || a || b || d || e || f) ≡ false
    → (w ≡ false)
      × ((if a
            then some l_paren
            else if b
            then some r_paren
            else if d
            then some l_bracket
            else if e
            then some r_bracket
            else if f
            then some colon
            else none)
          ≡ none)
parts true a b d e f h = cc
parts false true b d e f h = cc
parts false false true d e f h = cc
parts false false false true e f h = cc
parts false false false false true f h = cc
parts false false false false false true h = cc
parts false false false false false false h = (refl, refl)

pub ends_word-parts :
    (c : Char) → ends_word c ≡ false → (is_whitespace c ≡ false) × (mark_kind c ≡ none)
unfolding ends_word mark_kind
ends_word-parts c h =
    parts (is_whitespace c) (is_code c b'(') (is_code c b')') (is_code c b'[') (is_code c b']')
      (is_code c b':') h

pub chars-append : (w tail : String) → chars (w ++ tail) ≡ chars w + chars tail
unfolding chars
chars-append String.[] tail = let e = ap chars (append.nil tail) in omega (arith, e)
chars-append (String.◌∷◌ c w) tail =
    ap chars (append.cons c w tail) ∙ omega (arith, chars-append w tail)

longer-if :
    (n : ℕ) (b : Bool) (x y : String) → n ≤ chars x → n ≤ chars y → n ≤ chars (if b then x else y)
longer-if n true x y p q = p
longer-if n false x y p q = q

show_char-chars : (c : Char) (tail : String) → suc (chars tail) ≤ chars (show_char c tail)
unfolding chars show_char
show_char-chars c tail =
    let n = suc (chars tail) in
    longer-if n (is_code c 34) _ _ (omega arith) (
      longer-if n (is_code c 92) _ _ (omega arith) (
        longer-if n (is_code c 10) _ _ (omega arith) (
          longer-if n (is_code c 9) _ _ (omega arith) (
            longer-if n (is_code c 13) _ _ (omega arith)
              (longer-if n (is_code c 0) _ _ (omega arith) (omega arith))))))

pub show_text-chars : (s tail : String) → chars tail ≤ chars (show_text s tail)
unfolding show_text
show_text-chars String.[] tail = omega arith
show_text-chars (String.◌∷◌ c s) tail =
    omega (arith, show_char-chars c (show_text s tail), show_text-chars s tail)
