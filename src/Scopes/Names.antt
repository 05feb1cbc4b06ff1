-- ===== src/Scopes/Names.antt =====
-- The names that src/scopes.rs makes, and how src/checker.rs shows them in a message.
use Prim.Native.Char.{nul}
use Prim.Native.String.{◌++◌}
use Prim.Native.String.append
use text.Mathlib.TextLemmas.{append-nil, append_assoc}
use aipl.Base.{
  ℕ, zero, suc, ◌≡◌, refl, sym, ◌∙◌, ap, String, Char, is_code, Bool, true, false, ◌&&◌, not, arith,
  Bool-cases, inl, inr, ◌==◌,
}
use aipl.Text.Decimal.{digit, decimal}
use aipl.Text.Strings.{all_chars, all_chars-append, all_chars-decimal}
use aipl.Scopes.{renamed}
use aipl.Scopes.Shown.{ends_name, one, last_part, shown_outside, shown_inside, shown}

-- A character of a local's name: no space, bracket, quote or dot.
unfoldable pub local_char : Char → Bool
local_char c = not (ends_name c) && (not (is_code c b'\'') && not (is_code c b'.'))

abbrev pub IsLocal : String → Type 0
IsLocal n = all_chars local_char n ≡ true

local_digit : (n : ℕ) → all_chars local_char (digit n) ≡ true
unfolding local_char ends_name
local_digit zero = refl
local_digit (suc zero) = refl
local_digit (suc (suc zero)) = refl
local_digit (suc (suc (suc zero))) = refl
local_digit (suc (suc (suc (suc zero)))) = refl
local_digit (suc (suc (suc (suc (suc zero))))) = refl
local_digit (suc (suc (suc (suc (suc (suc zero)))))) = refl
local_digit (suc (suc (suc (suc (suc (suc (suc zero))))))) = refl
local_digit (suc (suc (suc (suc (suc (suc (suc (suc zero)))))))) = refl
local_digit (suc (suc (suc (suc (suc (suc (suc (suc (suc n))))))))) = refl

local_char-cases :
    (c : Char)
    → local_char c ≡ true
    → (ends_name c ≡ false) × ((is_code c b'\'' ≡ false) × (is_code c b'.' ≡ false))
unfolding local_char
local_char-cases c h = (ground arith, (ground arith, ground arith))

pub IsLocal-cons :
    (c : Char) (s : String) → IsLocal (String.◌∷◌ c s) → (local_char c ≡ true) × IsLocal s
IsLocal-cons c s h = elim (Bool-cases (local_char c)) [
  | inl e ↦ (e, rw e at h)
  | inr e ↦ let bad : false ≡ true = rw e at h in cc
]

pub literal-append : (c : Char) (s : String) → one c ++ s ≡ String.◌∷◌ c s
literal-append c s = append.cons c "" s ∙ ap (λ t. String.◌∷◌ c t) (append.nil s)

one-append : (c : Char) (name s : String) → (name ++ one c) ++ s ≡ name ++ String.◌∷◌ c s
one-append c name s = append_assoc name (one c) s ∙ ap (λ t. name ++ t) (literal-append c s)

last_part-local : (part s : String) → IsLocal s → last_part part s ≡ part ++ s
unfolding last_part
last_part-local part String.[] h = sym (append-nil part)
last_part-local part (String.◌∷◌ c s) h =
    let (l, r) = IsLocal-cons c s h in
    let (_, (_, dot)) = local_char-cases c l in
    rw dot (last_part-local (part ++ one c) s r ∙ one-append c part s)

abbrev first_char : String → Char
first_char String.[] = nul
first_char (String.◌∷◌ c _) = c

abbrev dot : Char
dot = first_char "."

abbrev pub quote : Char
quote = first_char "'"

-- Whatever stands before a dot is passed over.
last_part-dot : (a part n : String) → IsLocal n → last_part part (a ++ String.◌∷◌ dot n) ≡ n
unfolding last_part
last_part-dot String.[] part n h =
    ap (last_part part) (append.nil (String.◌∷◌ dot n)) ∙ (last_part-local "" n h ∙ append.nil n)
last_part-dot (String.◌∷◌ c a) part n h =
    ap (last_part part) (append.cons c a (String.◌∷◌ dot n)) ∙ elim (Bool-cases (is_code c b'.')) [
      | inl e ↦ rw e (last_part-dot a "" n h)
      | inr e ↦ rw e (last_part-dot a (part ++ one c) n h)
    ]

abbrev in_name : Char → Bool
in_name c = not (ends_name c)

shown_inside-all :
    (name s : String) → all_chars in_name s ≡ true → shown_inside name s ≡ last_part "" (name ++ s)
unfolding shown_inside
shown_inside-all name String.[] h = ap (last_part "") (sym (append-nil name))
shown_inside-all name (String.◌∷◌ c s) h = elim (Bool-cases (ends_name c)) [
  | inl e ↦ let bad : false ≡ true = rw e at h in cc
  | inr e ↦
      let r : all_chars in_name s ≡ true = rw e at h in
      rw e (shown_inside-all (name ++ one c) s r ∙ ap (last_part "") (one-append c name s))
]

shown_outside-local : (s : String) → IsLocal s → shown_outside s ≡ s
unfolding shown_outside
shown_outside-local String.[] h = refl
shown_outside-local (String.◌∷◌ c s) h =
    let (l, r) = IsLocal-cons c s h in
    let (_, (quote, _)) = local_char-cases c l in
    rw quote (ap (λ t. String.◌∷◌ c t) (shown_outside-local s r))

in_name-digit : (n : ℕ) → all_chars in_name (digit n) ≡ true
unfolding ends_name
in_name-digit zero = refl
in_name-digit (suc zero) = refl
in_name-digit (suc (suc zero)) = refl
in_name-digit (suc (suc (suc zero))) = refl
in_name-digit (suc (suc (suc (suc zero)))) = refl
in_name-digit (suc (suc (suc (suc (suc zero))))) = refl
in_name-digit (suc (suc (suc (suc (suc (suc zero)))))) = refl
in_name-digit (suc (suc (suc (suc (suc (suc (suc zero))))))) = refl
in_name-digit (suc (suc (suc (suc (suc (suc (suc (suc zero)))))))) = refl
in_name-digit (suc (suc (suc (suc (suc (suc (suc (suc (suc n))))))))) = refl

in_name-local : (s : String) → IsLocal s → all_chars in_name s ≡ true
in_name-local String.[] h = refl
in_name-local (String.◌∷◌ c s) h =
    let (l, r) = IsLocal-cons c s h in let (e, _) = local_char-cases c l in rw e (in_name-local s r)

dot-in_name : in_name dot ≡ true
unfolding ends_name
dot-in_name = refl

in_name-marked :
    (k : ℕ) (n : String) → IsLocal n → all_chars in_name (decimal k ++ ("." ++ n)) ≡ true
in_name-marked k n h =
    all_chars-append in_name (decimal k) ("." ++ n)
    ∙ rw (all_chars-decimal in_name in_name-digit k, literal-append dot n, dot-in_name)
        (in_name-local n h)

-- A message writes each renaming of a local as the local was written, where its name holds no space,
-- bracket, comma, colon, quote or dot.
pub shown-renamed : (k : ℕ) (n : String) → IsLocal n → shown (renamed k n) ≡ n
unfolding shown renamed
shown-renamed k n h = elim (Bool-cases (k == 1)) [
  | inl e ↦ rw e (shown_outside-local n h)
  | inr e ↦
      rw (e, literal-append quote (decimal k ++ ("." ++ n)))
        (shown_inside-all "" (decimal k ++ ("." ++ n)) (in_name-marked k n h)
          ∙ ap (last_part "") (append.nil _ ∙ ap (λ t. decimal k ++ t) (literal-append dot n))
          ∙ last_part-dot (decimal k) "" n h)
]
