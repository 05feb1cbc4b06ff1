-- ===== src/Tokenize/Again.antt =====
-- The tokens that `Parser::tokenize` of src/parser.rs yields, shown and read again.
use Prim.Native.Char.{Char}
use aipl.Base.{
  ℕ, zero, suc, ◌+◌, ◌≡◌, refl, String, is_code, Bool, true, false, Option, none, some, ok, List,
  [], ◌∷◌, map, All, if◌then◌else◌, arith,
}
use aipl.Base.Outcome.{Holds, Holds->>=, Holds-step, Holds-ok}
use aipl.Scopes.Shown.{is_whitespace}
use aipl.Token.{TokenKind, Token, l_paren, r_paren, l_bracket, r_bracket, colon}
use aipl.Tokenize.Literals.{StdParse, cons, word_kind}
use aipl.Tokenize.Scan.{
  scan_string, scan_word, ends_word, mark_kind, is_blank, Tokens, before, tokenize_step,
  tokenize_from, chars, tokenize,
}
use aipl.Tokenize.Ends.{begins_word}
use aipl.Tokenize.Words.{is_word, Begins}
use aipl.Tokenize.Numbers.{StdLaws}
use aipl.Tokenize.Written.{Found, word_kind-Found}
use aipl.Tokenize.RoundTrip.{IsWritten, source_text, tokenize-source_text}

module _ (std : StdParse) (laws : StdLaws std) where
  found-if :
      (b : Bool) (x y : Option TokenKind)
      → Found std laws x
      → Found std laws y
      → Found std laws (if b then x else y)
  found-if true x y h k = h
  found-if false x y h k = k

  mark_kind-Found : (c : Char) → Found std laws (mark_kind c)
  unfolding mark_kind
  mark_kind-Found c = found-if (is_code c b'(') (some l_paren) _ tt (
      found-if (is_code c b')') (some r_paren) _ tt (
        found-if (is_code c b'[') (some l_bracket) _ tt (
          found-if (is_code c b']') (some r_bracket) _ tt
            (found-if (is_code c b':') (some colon) none tt tt))))

  AllWritten : List Token → Type 0
  AllWritten ts = All (λ t. IsWritten std t.kind) ts

  before-AllWritten :
      (t : Token) (found : Tokens)
      → IsWritten std t.kind
      → Holds AllWritten found
      → Holds AllWritten (before t found)
  unfolding AllWritten
  before-AllWritten t found h k = Holds->>= AllWritten AllWritten found _ k (λ ts hs. (h, hs))

  mark-Holds :
      (o : Option TokenKind) (f : TokenKind → Tokens) (x : Tokens)
      → Found std laws o
      → ((k : TokenKind) → IsWritten std k → Holds AllWritten (f k))
      → (o ≡ none → Holds AllWritten x)
      → Holds AllWritten (elim o [ some k ↦ f k | none ↦ x ])
  mark-Holds none f x h p q = q refl
  mark-Holds (some k) f x h p q = p k h

  word-Holds :
      (o : Option TokenKind) (f : TokenKind → Tokens) (x : Tokens)
      → Found std laws o
      → ((k : TokenKind) → IsWritten std k → Holds AllWritten (f k))
      → Holds AllWritten x
      → Holds AllWritten (elim o [ none ↦ x | some k ↦ f k ])
  word-Holds none f x h p q = q
  word-Holds (some k) f x h p q = p k h

  Holds-if :
      (b : Bool) (x y : Tokens)
      → Holds AllWritten x
      → (b ≡ false → Holds AllWritten y)
      → Holds AllWritten (if b then x else y)
  Holds-if true x y h k = h
  Holds-if false x y h k = k refl

  pick-is_word :
      (b : Bool) (x y : String × String × ℕ)
      → is_word x.0 ≡ true
      → (b ≡ false → is_word y.0 ≡ true)
      → is_word (if b then x else y).0 ≡ true
  pick-is_word true x y h k = h
  pick-is_word false x y h k = k refl

  scan_word-is_word : (col : ℕ) (s : String) → is_word (scan_word col s).0 ≡ true
  unfolding scan_word
  scan_word-is_word col String.[] = refl
  scan_word-is_word col (String.◌∷◌ c more) =
      let ih = scan_word-is_word (col + 1) more in
      let (word, rest, col') = scan_word (col + 1) more in
      pick-is_word (ends_word c) (String.[], cons c more, col) (cons c word, rest, col') refl
        (λ e. ground (arith, e, ih))

  scan_word-Begins :
      (col : ℕ) (c : Char) (more : String)
      → ends_word c ≡ false
      → is_code c 34 ≡ false
      → is_code c 59 ≡ false
      → Begins (scan_word col (cons c more)).0
  unfolding scan_word
  scan_word-Begins col c more e q h = rw (e, Begins, scan_word) (q, h)

  module _ (go : ℕ → ℕ → String → Tokens)
      (after : (l k : ℕ) (s : String) → Holds AllWritten (go l k s)) where
    tokenize_step-AllWritten :
        (line col : ℕ) (c : Char) (more : String)
        → Holds AllWritten (tokenize_step std go line col c more)
    unfolding tokenize_step
    tokenize_step-AllWritten line col c more =
        Holds-if (is_blank c) _ _ (after line (col + 1) more) (λ _.
          Holds-if (is_code c 10) _ _ (after (line + 1) 1 more) (λ _.
            mark-Holds (mark_kind c) _ _ (mark_kind-Found c)
              (λ k h. before-AllWritten _ _ h (after line (col + 1) more))
              (λ plain.
                Holds-if (is_code c 34) _ _
                  (Holds-step AllWritten (scan_string (line, col) line (col + 1) more) _
                    (λ (s, rest, col') _. before-AllWritten _ _ tt (after line col' rest)))
                  (λ quote. Holds-if (is_code c 59) _ _ (after _ _ _) (λ semicolon.
                    Holds-if (is_whitespace c) _ _ tt (λ visible.
                      let starts = begins_word c plain visible in
                      word-Holds (word_kind std (scan_word col (cons c more)).0) _ _
                        (word_kind-Found std laws _ (scan_word-is_word col (cons c more))
                          (scan_word-Begins col c more starts quote semicolon))
                        (λ k h. before-AllWritten _ _ h (after line _ _)) (after line _ _)))))))

  tokenize_from-AllWritten :
      (fuel line col : ℕ) (s : String) → Holds AllWritten (tokenize_from std fuel line col s)
  unfolding tokenize_from AllWritten
  tokenize_from-AllWritten fuel line col String.[] = tt
  tokenize_from-AllWritten zero line col (String.◌∷◌ c more) = tt
  tokenize_from-AllWritten (suc fuel) line col (String.◌∷◌ c more) =
      tokenize_step-AllWritten (tokenize_from std fuel) (tokenize_from-AllWritten fuel) line col c
        more

  kinds-AllWritten : (ts : List Token) → AllWritten ts → All (IsWritten std) (map (λ t. t.kind) ts)
  unfolding AllWritten
  kinds-AllWritten [] h = tt
  kinds-AllWritten (t ∷ ts) (h, hs) = (h, kinds-AllWritten ts hs)

  -- The tokens of any text, as messages show them with a space after each, are read again as the same
  -- tokens, where the number parsers keep to their documentation.
  pub tokenize_again :
      (input : String) (ts : List Token)
      → tokenize std input ≡ ok ts
      → (again : List Token) × (tokenize std (source_text (map (λ t. t.kind) ts)) ≡ ok again)
        × (map (λ t. t.kind) again ≡ map (λ t. t.kind) ts)
  unfolding tokenize
  tokenize_again input ts e = tokenize-source_text std laws (map (λ t. t.kind) ts) (
      kinds-AllWritten ts
        (Holds-ok AllWritten (tokenize_from-AllWritten (chars input) 1 1 input) e))
