-- ===== src/Text/Strings.antt =====
-- Characters of a text: a predicate on all of them, and the number that decimal digits write.
use Prim.Native.String.{◌++◌}
use Prim.Native.String.append
use aipl.Base.{
  ℕ, zero, suc, ◌+◌, ◌-◌, ◌*◌, ◌/◌, ◌%◌, ◌≤◌, ◌<◌, ◌≡◌, ◌∙◌, ap, String, Char, code, Bool, true,
  false, ◌&&◌, arith, Bool-cases, inl, inr, ltb,
}
use aipl.Text.Decimal.{digit, decimal_fuel, decimal}

abbrev pub all_chars : (Char → Bool) → String → Bool
all_chars p String.[] = true
all_chars p (String.◌∷◌ c s) = p c && all_chars p s

pub all_chars-append :
    (p : Char → Bool) (s t : String) → all_chars p (s ++ t) ≡ (all_chars p s && all_chars p t)
all_chars-append p String.[] t = ap (all_chars p) (append.nil t)
all_chars-append p (String.◌∷◌ c s) t =
    let ih = all_chars-append p s t in rw (append.cons c s t) (ground arith)

-- The number that the digits write, after one that stands before them.
abbrev pub value : ℕ → String → ℕ
value acc String.[] = acc
value acc (String.◌∷◌ c s) = value (10 * acc + (code c - 48)) s

pub value-append : (acc : ℕ) (s t : String) → value acc (s ++ t) ≡ value (value acc s) t
value-append acc String.[] t = ap (value acc) (append.nil t)
value-append acc (String.◌∷◌ c s) t =
    ap (value acc) (append.cons c s t) ∙ value-append (10 * acc + (code c - 48)) s t

value-digit : (acc n : ℕ) → n < 10 → value acc (digit n) ≡ 10 * acc + n
value-digit acc zero h = omega arith
value-digit acc (suc zero) h = omega arith
value-digit acc (suc (suc zero)) h = omega arith
value-digit acc (suc (suc (suc zero))) h = omega arith
value-digit acc (suc (suc (suc (suc zero)))) h = omega arith
value-digit acc (suc (suc (suc (suc (suc zero))))) h = omega arith
value-digit acc (suc (suc (suc (suc (suc (suc zero)))))) h = omega arith
value-digit acc (suc (suc (suc (suc (suc (suc (suc zero))))))) h = omega arith
value-digit acc (suc (suc (suc (suc (suc (suc (suc (suc zero)))))))) h = omega arith
value-digit acc (suc (suc (suc (suc (suc (suc (suc (suc (suc zero))))))))) h = omega arith
value-digit acc (suc (suc (suc (suc (suc (suc (suc (suc (suc (suc n)))))))))) h =
    let bad : true ≡ false = ground arith in cc

value-decimal_fuel : (f n : ℕ) → n ≤ f → value 0 (decimal_fuel f n) ≡ n
unfolding decimal_fuel
value-decimal_fuel zero n h = value-digit 0 n (omega arith) ∙ omega arith
value-decimal_fuel (suc f) n h = elim (Bool-cases (ltb n 10)) [
  | inl e ↦ rw e (value-digit 0 n (ground arith) ∙ omega arith)
  | inr e ↦
      let front = value-decimal_fuel f (n / 10) (ground arith) in
      let back = value-digit (n / 10) (n % 10) (omega arith) in
      rw e
        (value-append 0 (decimal_fuel f (n / 10)) (digit (n % 10)) ∙ rw front (back ∙ omega arith))
]

pub value-decimal : (n : ℕ) → value 0 (decimal n) ≡ n
unfolding decimal
value-decimal n = value-decimal_fuel n n (omega arith)

module _ (p : Char → Bool) (digits : (n : ℕ) → all_chars p (digit n) ≡ true) where
  all_chars-decimal_fuel : (f n : ℕ) → all_chars p (decimal_fuel f n) ≡ true
  unfolding decimal_fuel
  all_chars-decimal_fuel zero n = digits n
  all_chars-decimal_fuel (suc f) n = ground (
    arith,
    digits n,
    digits (n % 10),
    all_chars-decimal_fuel f (n / 10),
    all_chars-append p (decimal_fuel f (n / 10)) (digit (n % 10)),
  )

  pub all_chars-decimal : (n : ℕ) → all_chars p (decimal n) ≡ true
  unfolding decimal
  all_chars-decimal n = all_chars-decimal_fuel n n
