-- ===== src/Tokenize/RoundTrip.antt =====
-- Reading tokens as src/parser.rs shows them.
use Prim.Native.String.{◌++◌}
use Prim.Native.String.append
use Prim.Native.Char.{Char}
use aipl.Base.{
  ℕ, zero, suc, ◌+◌, ◌≤◌, ◌≡◌, refl, sym, ap, ◌∙◌, String, true, false, some, ok, arith, List, [],
  ◌∷◌, map, length, All, ◌*◌,
}
use aipl.Token.{
  TokenKind, Token, string_lit, l_paren, r_paren, l_bracket, r_bracket, colon, arrow, symbol,
  int_lit, int64_lit, float_lit, float32_lit, bool_lit,
}
use aipl.Tokenize.Literals.{StdParse, cons, word_kind}
use aipl.Tokenize.Scan.{
  ends_word, double_quote, scan_word, mark_kind, Tokens, token_at, before, tokenize_step,
  tokenize_from, chars, tokenize,
}
use aipl.Tokenize.Words.{
  Begins, space, scan_string-show_text, is_word, word-cons, scan_word-word, visible-blank,
  ends_word-parts, chars-append, show_text-chars,
}
use aipl.Word.{InRange}
use aipl.Tokenize.Numbers.{StdLaws, show_int-chars, is_empty-append}
use aipl.Tokenize.Shown.{
  shown-is_word, shown-Begins, show_int-shown, wide-shown, word_kind-show_int, word_kind-wide,
}
use aipl.Tokenize.Display.{word_of, show_int, display}

word_arrow : is_word "->" ≡ true
unfolding ends_word
word_arrow = refl

word_true : is_word "true" ≡ true
unfolding ends_word
word_true = refl

word_false : is_word "false" ≡ true
unfolding ends_word
word_false = refl

module _ (std : StdParse) where
  -- A mark, a text, a bool, a number in range, or a word that is a symbol or a float.
  abbrev pub IsWritten : TokenKind → Type 0
  IsWritten (int_lit v) = InRange 64 v
  IsWritten (int64_lit v) = InRange 64 v
  IsWritten (symbol s) = (is_word s ≡ true) × Begins s × (word_kind std s ≡ some (symbol s))
  IsWritten (float_lit n s) =
      (is_word s ≡ true) × Begins s × (word_kind std s ≡ some (float_lit n s))
  IsWritten (float32_lit n s) =
      (is_word s ≡ true) × Begins s × (word_kind std s ≡ some (float32_lit n s))
  IsWritten _ = Unit

  -- The token is read, and then what follows the space after it.
  abbrev ReadsAs : TokenKind → String → Type 0
  ReadsAs k tail =
      (fuel line col : ℕ)
      → (col' : ℕ) × (tokenize_from std (suc (suc fuel)) line col (display k (cons space tail))
          ≡ before (token_at line col k) (tokenize_from std fuel line col' tail))

  word-read :
      (go : ℕ → ℕ → String → Tokens) (line col : ℕ) (c : Char) (w tail : String) (k : TokenKind)
      → is_word (cons c w) ≡ true
      → Begins (cons c w)
      → word_kind std (cons c w) ≡ some k
      → (col' : ℕ) × (tokenize_step std go line col c (w ++ cons space tail)
          ≡ before (token_at line col k) (go line col' (cons space tail)))
  unfolding tokenize_step
  word-read go line col c w tail k word (quote, semicolon) kind =
      let (plain, _) = word-cons c w word in
      let (white, mark) = ends_word-parts c plain in
      let (blank, same_line) = visible-blank c white in
      let (end, scan) = scan_word-word (cons c w) col tail word in
      let scanned : scan_word col (cons c (w ++ cons space tail))
          ≡ (cons c w, cons space tail, end) =
        ap (scan_word col) (sym (append.cons c w (cons space tail))) ∙ scan in
      (end, rw (blank, same_line, mark, quote, semicolon, white, scanned, kind) (rw scanned refl))

  words-read :
      (w tail : String) (k : TokenKind)
      → display k (cons space tail) ≡ w ++ cons space tail
      → is_word w ≡ true
      → Begins w
      → word_kind std w ≡ some k
      → ReadsAs k tail
  unfolding tokenize_from tokenize_step
  words-read String.[] tail k shown word begins kind fuel line col = absurd begins
  words-read (String.◌∷◌ c w) tail k shown word begins kind fuel line col =
      let (end, e) =
        word-read (tokenize_from std (suc fuel)) line col c w tail k word begins kind in
      (
        end + 1,
        ap (tokenize_from std (suc (suc fuel)) line col) (shown ∙ append.cons c w (cons space tail))
            ∙ e,
      )

  -- The token is read, whichever it is.
  display-ReadsAs : StdLaws std → (k : TokenKind) (tail : String) → IsWritten k → ReadsAs k tail
  unfolding display tokenize_from tokenize_step mark_kind word_of word_kind
  display-ReadsAs laws l_paren tail h = λ fuel line col. (col + 1 + 1, refl)
  display-ReadsAs laws r_paren tail h = λ fuel line col. (col + 1 + 1, refl)
  display-ReadsAs laws l_bracket tail h = λ fuel line col. (col + 1 + 1, refl)
  display-ReadsAs laws r_bracket tail h = λ fuel line col. (col + 1 + 1, refl)
  display-ReadsAs laws colon tail h = λ fuel line col. (col + 1 + 1, refl)
  display-ReadsAs laws (string_lit s) tail h = λ fuel line col.
      let (end, scan) = scan_string-show_text (line, col) line s (col + 1) (cons space tail) in
      (end + 1, rw scan refl)
  display-ReadsAs laws arrow tail h = words-read "->" tail arrow refl word_arrow (refl, refl) refl
  display-ReadsAs laws (bool_lit true) tail h =
      words-read "true" tail (bool_lit true) refl word_true (refl, refl) refl
  display-ReadsAs laws (bool_lit false) tail h =
      words-read "false" tail (bool_lit false) refl word_false (refl, refl) refl
  display-ReadsAs laws (symbol s) tail (w, b, e) = words-read s tail (symbol s) refl w b e
  display-ReadsAs laws (float_lit n s) tail (w, b, e) = words-read s tail (float_lit n s) refl w b e
  display-ReadsAs laws (float32_lit n s) tail (w, b, e) =
      words-read s tail (float32_lit n s) refl w b e
  display-ReadsAs laws (int_lit v) tail h =
      let shown = show_int-shown v in
      words-read (show_int v) tail (int_lit v) refl (shown-is_word _ shown)
        (shown-Begins _ shown (show_int-chars v)) (word_kind-show_int std laws v h)
  display-ReadsAs laws (int64_lit v) tail h =
      let shown = wide-shown v in
      words-read (show_int v ++ "i64") tail (int64_lit v) refl (shown-is_word _ shown)
        (shown-Begins _ shown (is_empty-append (show_int v) "i64" (show_int-chars v)))
        (word_kind-wide std laws v h)

-- The tokens with a space after each.
abbrev pub source_text : List TokenKind → String
source_text [] = String.[]
source_text (k ∷ ks) = display k (cons space (source_text ks))

tokenize_from-source_text :
    (std : StdParse)
    → StdLaws std
    → (ks : List TokenKind) (fuel line col : ℕ) → All (IsWritten std) ks
    → 2 * length ks ≤ fuel
    → (ts : List Token) × (tokenize_from std fuel line col (source_text ks) ≡ ok ts)
      × (map (λ t. t.kind) ts ≡ ks)
unfolding tokenize_from
tokenize_from-source_text std laws [] fuel line col h enough = ([], refl, refl)
tokenize_from-source_text std laws (k ∷ ks) zero line col h enough = absurd (omega arith)
tokenize_from-source_text std laws (k ∷ ks) (suc zero) line col h enough = absurd (omega arith)
tokenize_from-source_text std laws (k ∷ ks) (suc (suc fuel)) line col (h, hs) enough =
    let (end, read) = display-ReadsAs std laws k (source_text ks) h fuel line col in
    let (ts, more, kinds) = tokenize_from-source_text std laws ks fuel line end hs (omega arith) in
    (token_at line col k ∷ ts, read ∙ ap (before (token_at line col k)) more, ap (λ x. k ∷ x) kinds)

word-chars : (w tail : String) → Begins w → suc (chars tail) ≤ chars (w ++ tail)
unfolding chars
word-chars String.[] tail h = absurd h
word-chars (String.◌∷◌ c w) tail h = omega (arith, chars-append (cons c w) tail)

display-chars :
    (std : StdParse) (k : TokenKind) (tail : String)
    → IsWritten std k
    → suc (chars tail) ≤ chars (display k tail)
unfolding chars display word_of
display-chars std l_paren tail h = omega arith
display-chars std r_paren tail h = omega arith
display-chars std l_bracket tail h = omega arith
display-chars std r_bracket tail h = omega arith
display-chars std colon tail h = omega arith
display-chars std (string_lit s) tail h = omega (arith, show_text-chars s (cons double_quote tail))
display-chars std arrow tail h = word-chars "->" tail (refl, refl)
display-chars std (symbol s) tail (_, b, _) = word-chars s tail b
display-chars std (int_lit v) tail h =
    word-chars (show_int v) tail (shown-Begins _ (show_int-shown v) (show_int-chars v))
display-chars std (int64_lit v) tail h =
    word-chars (show_int v ++ "i64") tail
      (shown-Begins _ (wide-shown v) (is_empty-append (show_int v) "i64" (show_int-chars v)))
display-chars std (float_lit n s) tail (_, b, _) = word-chars s tail b
display-chars std (float32_lit n s) tail (_, b, _) = word-chars s tail b
display-chars std (bool_lit true) tail h = word-chars "true" tail (refl, refl)
display-chars std (bool_lit false) tail h = word-chars "false" tail (refl, refl)

source_text-chars :
    (std : StdParse) (ks : List TokenKind)
    → All (IsWritten std) ks
    → 2 * length ks ≤ chars (source_text ks)
unfolding chars
source_text-chars std [] h = omega arith
source_text-chars std (k ∷ ks) (h, hs) =
    omega (arith, display-chars std k (cons space (source_text ks)) h, source_text-chars std ks hs)

-- A text of tokens as messages show them, with a space after each, is read as these tokens, where an
-- integer is in range of an i64, and a symbol or a float is a word that is read by itself as that.
pub tokenize-source_text :
    (std : StdParse)
    → StdLaws std
    → (ks : List TokenKind) → All (IsWritten std) ks
    → (ts : List Token) × (tokenize std (source_text ks) ≡ ok ts) × (map (λ t. t.kind) ts ≡ ks)
unfolding tokenize
tokenize-source_text std laws ks h =
    tokenize_from-source_text std laws ks (chars (source_text ks)) 1 1 h
      (source_text-chars std ks h)

-- A mark, a text, an arrow, a bool, or an integer in range.
abbrev pub IsLiteral : TokenKind → Type 0
IsLiteral (int_lit v) = InRange 64 v
IsLiteral (int64_lit v) = InRange 64 v
IsLiteral (symbol _) = ⊥
IsLiteral (float_lit _ _) = ⊥
IsLiteral (float32_lit _ _) = ⊥
IsLiteral _ = Unit

IsLiteral-IsWritten : (std : StdParse) (k : TokenKind) → IsLiteral k → IsWritten std k
IsLiteral-IsWritten std (int_lit v) h = h
IsLiteral-IsWritten std (int64_lit v) h = h
IsLiteral-IsWritten std (symbol _) h = absurd h
IsLiteral-IsWritten std (float_lit _ _) h = absurd h
IsLiteral-IsWritten std (float32_lit _ _) h = absurd h
IsLiteral-IsWritten std _ h = tt

literals-IsWritten :
    (std : StdParse) (ks : List TokenKind) → All IsLiteral ks → All (IsWritten std) ks
literals-IsWritten std [] h = tt
literals-IsWritten std (k ∷ ks) (h, hs) =
    (IsLiteral-IsWritten std k h, literals-IsWritten std ks hs)

-- Marks, texts, arrows, bools and integers in the range of an i64, as messages show them with a space
-- after each, are read as these tokens, where the number parsers keep to their documentation.
pub tokenize-literals :
    (std : StdParse)
    → StdLaws std
    → (ks : List TokenKind) → All IsLiteral ks
    → (ts : List Token) × (tokenize std (source_text ks) ≡ ok ts) × (map (λ t. t.kind) ts ≡ ks)
tokenize-literals std laws ks h = tokenize-source_text std laws ks (literals-IsWritten std ks h)
