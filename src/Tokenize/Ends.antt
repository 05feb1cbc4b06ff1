-- ===== src/Tokenize/Ends.antt =====
-- The loop of `Parser::tokenize` in src/parser.rs and its fuel.
use aipl.Base.{
  ℕ, zero, suc, ◌+◌, ◌≤◌, ◌≡◌, ◌≢◌, refl, String, Char, is_code, Bool, true, false, ◌||◌, Option,
  none, some, Result, ok, err, ◌>>=◌, if◌then◌else◌, arith, List,
}
use aipl.Scopes.Shown.{is_whitespace}
use aipl.Token.{TokenKind, Token, l_paren, r_paren, l_bracket, r_bracket, colon}
use aipl.Tokenize.Literals.{StdParse, cons, word_kind}
use aipl.Tokenize.Scan.{
  TokenError, unterminated, unknown_escape, odd_whitespace, out_of_fuel, unescape, Scanned,
  with_char, scan_string, scan_escape, scan_comment, scan_word, ends_word, mark_kind, is_blank,
  Tokens, before, token_at, tokenize_step, tokenize_from, chars, tokenize,
}

-- A result that is there and satisfies P, or an error that is not the model's own.
abbrev pub Fine {ℓ} : {A : Type ℓ} → (A → Type 0) → Result TokenError A → Type 0
Fine P (ok a) = P a
Fine P (err out_of_fuel) = ⊥
Fine P (err _) = Unit

Fine->>= {ℓ κ} :
    {A : Type ℓ} {B : Type κ} (P : A → Type 0) (Q : B → Type 0) (r : Result TokenError A)
    (rest : A → Result TokenError B)
    → Fine P r
    → ((a : A) → P a → Fine Q (rest a))
    → Fine Q (r >>= rest)
Fine->>= P Q (ok a) rest h k = k a h
Fine->>= P Q (err (unterminated _)) rest h k = tt
Fine->>= P Q (err (unknown_escape _ _)) rest h k = tt
Fine->>= P Q (err (odd_whitespace _ _)) rest h k = tt
Fine->>= P Q (err out_of_fuel) rest h k = absurd h

Fine-if {ℓ} :
    {A : Type ℓ} (P : A → Type 0) (b : Bool) (x y : Result TokenError A)
    → (b ≡ true → Fine P x)
    → (b ≡ false → Fine P y)
    → Fine P (if b then x else y)
Fine-if P true x y p q = p refl
Fine-if P false x y p q = q refl

-- What is left is no longer than this.
abbrev Left : ℕ → String × String × ℕ → Type 0
Left n found = chars found.1 ≤ n

with_char-Fine :
    (c : Char) (r : Scanned) (n m : ℕ) → n ≤ m → Fine (Left n) r → Fine (Left m) (with_char c r)
with_char-Fine c r n m h fine =
    Fine->>= (Left n) (Left m) r _ fine (λ (s, rest, col) left. omega (arith, h, left))

module _ (start : ℕ × ℕ) (line : ℕ) where
  mutual
    unfolding scan_string scan_escape chars

    scan_string-Fine : (s : String) (col : ℕ) → Fine (Left (chars s)) (scan_string start line col s)
    scan_string-Fine String.[] col = tt
    scan_string-Fine (String.◌∷◌ c more) col =
        Fine-if (Left (suc (chars more))) (is_code c 34) _ _ (λ _. omega arith)
          (λ _.
            Fine-if (Left (suc (chars more))) (is_code c 10) _ _ (λ _. tt)
              (λ _.
                Fine-if (Left (suc (chars more))) (is_code c 92) _ _
                  (λ _. scan_escape-Fine more (col + 1))
                  (λ _.
                    with_char-Fine c _ (chars more) (suc (chars more)) (omega arith)
                      (scan_string-Fine more (col + 1)))))

    scan_escape-Fine :
        (s : String) (col : ℕ) → Fine (Left (suc (chars s))) (scan_escape start line col s)
    scan_escape-Fine String.[] col = tt
    scan_escape-Fine (String.◌∷◌ c more) col =
        elim (unescape c)
          as (λ o. Fine (Left (suc (suc (chars more)))) (elim o [
            | none ↦ err (unknown_escape (line, col) c)
            | some e ↦ with_char e (scan_string start line (col + 1) more)
          ])) [
            | none ↦ tt
            | some e ↦
                with_char-Fine e _ (chars more) (suc (suc (chars more))) (omega arith)
                  (scan_string-Fine more (col + 1))
          ]

scan_comment-chars : (line col : ℕ) (s : String) → chars (scan_comment line col s).0 ≤ chars s
unfolding scan_comment chars
scan_comment-chars line col String.[] = omega arith
scan_comment-chars line col (String.◌∷◌ c more) =
    let ih = scan_comment-chars line (col + 1) more in
    elim (is_code c 10)
      as (λ b.
        chars (if b then (more, line + 1, 1) else scan_comment line (col + 1) more).0
        ≤ suc (chars more)) [ true ↦ omega arith | false ↦ omega (arith, ih) ]

pick-chars :
    (b : Bool) (x y : String × String × ℕ) (n : ℕ)
    → chars x.1 ≤ n
    → chars y.1 ≤ n
    → chars (if b then x else y).1 ≤ n
pick-chars true x y n p q = p
pick-chars false x y n p q = q

scan_word-chars : (col : ℕ) (s : String) → chars (scan_word col s).1 ≤ chars s
unfolding scan_word chars
scan_word-chars col String.[] = omega arith
scan_word-chars col (String.◌∷◌ c more) =
    let ih = scan_word-chars (col + 1) more in
    let (word, rest, col') = scan_word (col + 1) more in
    pick-chars (ends_word c) (String.[], cons c more, col) (cons c word, rest, col')
      (suc (chars more)) (omega arith) (omega (arith, ih))

scan_comment-shorter :
    (line col : ℕ) (c : Char) (more : String)
    → is_code c 10 ≡ false
    → chars (scan_comment line col (cons c more)).0 ≤ chars more
unfolding scan_comment
scan_comment-shorter line col c more h = rw h (scan_comment-chars line (col + 1) more)

-- A word takes its first character, unless that ends words.
scan_word-shorter :
    (col : ℕ) (c : Char) (more : String)
    → ends_word c ≡ false
    → chars (scan_word col (cons c more)).1 ≤ chars more
unfolding scan_word
scan_word-shorter col c more h = rw h (scan_word-chars (col + 1) more)

marks :
    (a b d e f w : Bool)
    → (if a
        then some l_paren
        else if b
        then some r_paren
        else if d
        then some l_bracket
        else if e
        then some r_bracket
        else if f
        then some colon
        else none)
      ≡ none
    → w ≡ false
    → (w || a || b || d || e || f) ≡ false
marks true b d e f w h n = cc
marks false true d e f w h n = cc
marks false false true e f w h n = cc
marks false false false true f w h n = cc
marks false false false false true w h n = cc
marks false false false false false w h n = ground arith

-- A character that begins a word does not end one.
pub begins_word : (c : Char) → mark_kind c ≡ none → is_whitespace c ≡ false → ends_word c ≡ false
unfolding mark_kind ends_word
begins_word c h k =
    marks (is_code c b'(') (is_code c b')') (is_code c b'[') (is_code c b']') (is_code c b':')
      (is_whitespace c) h k

abbrev Any : List Token → Type 0
Any ts = Unit

before-Fine : (t : Token) (found : Tokens) → Fine Any found → Fine Any (before t found)
before-Fine t found fine = Fine->>= Any Any found _ fine (λ ts _. tt)

mark-Fine :
    (o : Option TokenKind) (f : TokenKind → Tokens) (x : Tokens)
    → ((k : TokenKind) → Fine Any (f k))
    → (o ≡ none → Fine Any x)
    → Fine Any (elim o [ some k ↦ f k | none ↦ x ])
mark-Fine none f x p q = q refl
mark-Fine (some k) f x p q = p k

module _ (std : StdParse) (go : ℕ → ℕ → String → Tokens) (line col : ℕ) (c : Char)
    (more : String) where
  word_step-Fine :
      (col' : ℕ) (word rest : String)
      → Fine Any (go line col' rest)
      → Fine Any (elim (word_kind std word) [
        | none ↦ go line col' rest
        | some k ↦ before (token_at line col k) (go line col' rest)
      ])
  word_step-Fine col' word rest fine =
      elim (word_kind std word)
        as (λ o. Fine Any (elim o [
          | none ↦ go line col' rest
          | some k ↦ before (token_at line col k) (go line col' rest)
        ])) [ none ↦ fine | some k ↦ before-Fine _ _ fine ]

  -- Each turn of the loop leaves no more than the text after its first character.
  tokenize_step-Fine :
      ((l k : ℕ) (s : String) → chars s ≤ chars more → Fine Any (go l k s))
      → Fine Any (tokenize_step std go line col c more)
  unfolding tokenize_step chars
  tokenize_step-Fine h =
      Fine-if Any (is_blank c) _ _ (λ _. h line (col + 1) more (omega arith))
        (λ _.
          Fine-if Any (is_code c 10) _ _ (λ _. h (line + 1) 1 more (omega arith))
            (λ same_line.
              mark-Fine (mark_kind c) _ _
                (λ k. before-Fine _ _ (h line (col + 1) more (omega arith)))
                (λ plain.
                  Fine-if Any (is_code c 34) _ _
                    (λ _.
                      Fine->>= (Left (chars more)) Any (scan_string (line, col) line (col + 1) more)
                        _ (scan_string-Fine (line, col) line more (col + 1))
                        (λ (s, rest, col') left. before-Fine _ _ (h line col' rest left)))
                    (λ _.
                      Fine-if Any (is_code c 59) _ _
                        (λ _. h _ _ _ (scan_comment-shorter line col c more same_line))
                        (λ _.
                          Fine-if Any (is_whitespace c) _ _ (λ _. tt)
                            (λ visible. word_step-Fine _ _ _ (
                              h line _ _
                                (scan_word-shorter col c more (begins_word c plain visible)))))))))

tokenize_from-Fine :
    (std : StdParse) (fuel line col : ℕ) (s : String)
    → chars s ≤ fuel
    → Fine Any (tokenize_from std fuel line col s)
unfolding tokenize_from chars
tokenize_from-Fine std fuel line col String.[] h = tt
tokenize_from-Fine std zero line col (String.◌∷◌ c more) h = absurd (omega arith)
tokenize_from-Fine std (suc fuel) line col (String.◌∷◌ c more) h =
    tokenize_step-Fine std (tokenize_from std fuel) line col c more
      (λ l k s short. tokenize_from-Fine std fuel l k s (omega arith))

Fine-ne : (r : Tokens) → Fine Any r → r ≢ err out_of_fuel
Fine-ne (ok ts) fine e = cc
Fine-ne (err (unterminated _)) fine e = cc
Fine-ne (err (unknown_escape _ _)) fine e = cc
Fine-ne (err (odd_whitespace _ _)) fine e = cc
Fine-ne (err out_of_fuel) fine e = absurd fine

-- On every text the tokenizer gives its tokens or one of its messages: as many turns of its loop as the
-- text has characters are enough.
pub tokenize-ne-out_of_fuel :
    (std : StdParse) (input : String) → tokenize std input ≢ err out_of_fuel
unfolding tokenize
tokenize-ne-out_of_fuel std input =
    Fine-ne _ (tokenize_from-Fine std (chars input) 1 1 input (omega arith))
