-- ===== src/Tokenize/Written.antt =====
-- The tokens that `word_kind` makes of words: the literals of src/parser.rs.
use aipl.Base.{
  ◌-◌, ◌^◌, ◌≡◌, refl, sym, subst, ℤ, String, is_code, str_eq, Bool, true, false, ◌&&◌, ◌||◌, not,
  Option, none, some, if◌then◌else◌, Bool-cases, Option-cases, inl, inr, ◌⊎◌, ltb, neg,
}
use aipl.Word.{InRange, from_bits}
use aipl.Word.Range.{w64, from_bits-InRange, wrap-InRange}
use aipl.Text.Strings.{all_chars}
use aipl.Token.{TokenKind, arrow, symbol, int_lit, int64_lit, float_lit, float32_lit, bool_lit}
use aipl.Tokenize.Literals.{
  StdParse, is_empty, is_digit, strip_suffix, signed, radix_prefix, radix_literal,
  misplaced_underscore, without_underscores, or_else, plain_int, wide_int, short_float, long_float,
  word_kind,
}
use aipl.Tokenize.Words.{is_word, Begins}
use aipl.Tokenize.Numbers.{StdLaws}
use aipl.Tokenize.RoundTrip.{IsWritten}

or_else-some : (a b : Option ℤ) {i : ℤ} → or_else a b ≡ some i → (a ≡ some i) ⊎ (b ≡ some i)
or_else-some (some v) b e = inl e
or_else-some none b e = inr e

Begins-chars : (s : String) → Begins s → is_empty s ≡ false
Begins-chars String.[] h = absurd h
Begins-chars (String.◌∷◌ c s) h = refl

-- The integer that is there is an i64.
abbrev Ranged : Option ℤ → Type 0
Ranged none = Unit
Ranged (some i) = InRange 64 i

Ranged-some : {o : Option ℤ} {i : ℤ} → Ranged o → o ≡ some i → InRange 64 i
Ranged-some h e = subst Ranged e h

either-InRange :
    (b : Bool) (x y : ℤ) → InRange 64 x → InRange 64 y → InRange 64 (if b then x else y)
either-InRange true x y h k = h
either-InRange false x y h k = k

module _ (std : StdParse) (laws : StdLaws std) where
  radix_literal-Ranged : (s : String) (wide : Bool) → Ranged (radix_literal std s wide)
  unfolding radix_literal
  radix_literal-Ranged s wide = elim (Option-cases (radix_prefix (signed s).1)) [
    | inl e ↦ rw (e, Ranged, radix_literal) tt
    | inr ((radix, digits), e) ↦ elim (Bool-cases (misplaced_underscore true digits)) [
      | inl a ↦ rw (e, a, Ranged, radix_literal) tt
      | inr a ↦ elim (Bool-cases (all_chars (λ c. is_code c b'_' || is_digit radix c) digits)) [
        | inr b ↦ rw (e, a, b, Ranged, radix_literal) tt
        | inl b ↦ elim (Option-cases (std.from_str_radix (without_underscores digits) radix)) [
          | inl f ↦ rw (e, a, b, f, Ranged, radix_literal) tt
          | inr (n, f) ↦ elim (Bool-cases (not wide && ltb (2 ^ 63 - 1) n)) [
            | inl g ↦ rw (e, a, b, f, g, Ranged, radix_literal) tt
            | inr g ↦
                let small = laws.radix_in_range _ radix n f in
                rw (e, a, b, f, g, Ranged, radix_literal)
                  (either-InRange (signed s).0 _ _ (wrap-InRange w64 (neg (from_bits 64 n)))
                    (from_bits-InRange w64 n small))
          ]
        ]
      ]
    ]
  ]

  either_way :
      (s : String) (wide : Bool) (i : ℤ)
      → or_else (std.parse_i64 s) (radix_literal std s wide) ≡ some i
      → InRange 64 i
  either_way s wide i e = elim (or_else-some (std.parse_i64 s) (radix_literal std s wide) e) [
    | inl p ↦ laws.parse_in_range s i p
    | inr r ↦ Ranged-some (radix_literal-Ranged s wide) r
  ]

  wide_int-Ranged : (s : String) → Ranged (wide_int std s)
  unfolding wide_int
  wide_int-Ranged s = elim (Option-cases (strip_suffix "i64" s)) [
    | inl e ↦ rw (e, Ranged, wide_int) tt
    | inr (digits, e) ↦ elim (Bool-cases (is_empty digits)) [
      | inl a ↦ rw (e, a, Ranged, wide_int) tt
      | inr a ↦
          elim (Option-cases (or_else (std.parse_i64 digits) (radix_literal std digits true))) [
            | inl n ↦ rw (e, a, n, Ranged, wide_int) tt
            | inr (i, n) ↦ rw (e, a, n, Ranged, wide_int) (either_way digits true i n)
          ]
    ]
  ]

  -- The token that is there, if one is, is one as they are written.
  abbrev pub Found : Option TokenKind → Type 0
  Found none = Unit
  Found (some k) = IsWritten std k

  found :
      (s : String) (k : TokenKind)
      → word_kind std s ≡ some k
      → IsWritten std k
      → Found (word_kind std s)
  found s k e h = subst Found (sym e) h

  pub word_kind-Found : (s : String) → is_word s ≡ true → Begins s → Found (word_kind std s)
  unfolding word_kind plain_int
  word_kind-Found s w b = elim (Bool-cases (str_eq s "->")) [
    | inl p ↦ found s arrow (rw p refl) tt
    | inr p ↦ elim (Bool-cases (str_eq s "true")) [
      | inl q ↦ found s (bool_lit true) (rw (p, q) refl) tt
      | inr q ↦ elim (Bool-cases (str_eq s "false")) [
        | inl r ↦ found s (bool_lit false) (rw (p, q, r) refl) tt
        | inr r ↦ elim (Option-cases (or_else (std.parse_i64 s) (radix_literal std s false))) [
          | inr (i, n) ↦ found s (int_lit i) (rw (p, q, r, n) refl) (either_way s false i n)
          | inl n ↦ elim (Option-cases (wide_int std s)) [
            | inr (i, m) ↦
                found s (int64_lit i) (rw (p, q, r, n, m) refl) (Ranged-some (wide_int-Ranged s) m)
            | inl m ↦ elim (Option-cases (short_float std s)) [
              | inr (f, x) ↦
                  let e : word_kind std s ≡ some (float32_lit (std.to_f32 f) s) =
                    rw (p, q, r, n, m, x) refl in
                  found s _ e (w, b, e)
              | inl x ↦ elim (Option-cases (long_float std s)) [
                | inr (f, y) ↦
                    let e : word_kind std s ≡ some (float_lit f s) =
                      rw (p, q, r, n, m, x, y) refl in
                    found s _ e (w, b, e)
                | inl y ↦
                    let e : word_kind std s ≡ some (symbol s) =
                      rw (p, q, r, n, m, x, y, Begins-chars s b) refl in
                    found s _ e (w, b, e)
              ]
            ]
          ]
        ]
      ]
    ]
  ]
