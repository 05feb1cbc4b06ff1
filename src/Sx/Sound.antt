-- ===== src/Sx/Sound.antt =====
-- The forms that `Sx::read` of src/sexpr.rs returns, what it consumes, and its fuel.
use aipl.Base.{
  ℕ, zero, suc, ◌+◌, ◌*◌, ◌<◌, ◌≡◌, ◌≢◌, ◌↔◌, refl, ap, List, [], ◌∷◌, ◌++◌, append_assoc,
  append-nil, Option, none, some, Result, ok, err, ◌>>=◌, length, arith, subst,
}
use aipl.Token.{Token}
use aipl.Sx.{
  Sx, Items, atom, list, Bracket, paren, square, Shape, opens, closes, plain, shape, flatten,
  flatten_items,
}
use aipl.Sx.Reader.{
  ReadError, out_of_fuel, read, read_items, Inside, closer, other_closer, item, inside, fuel_for,
  whole, read_whole, find_split, map_err, read_one,
}
use mathlib.Core.Logic.{◌⊎◌, inl, inr}
use aipl.Sx.RoundTrip.{
  read-plain, read-opens, read_items-closes, read_items-item, IsWell, well_atom, well_list, AreWell,
  well_nil, well_cons, lengths, read_one-flatten,
}

-- The run kept within its fuel, and `P` holds of its value if it has one.
pub data Ensures {ℓ} {A : Type 0} (P : A → Type ℓ) : Result ReadError A → Type ℓ where
  holds : {a : A} → P a → Ensures P (ok a)
  rejected : {e : ReadError} → e ≢ out_of_fuel → Ensures P (err e)

module _ {ℓ κ} {A B : Type 0} {P : A → Type ℓ} {Q : B → Type κ} where
  Ensures-bind :
      {r : Result ReadError A} {f : A → Result ReadError B}
      → Ensures P r
      → ((a : A) → P a → Ensures Q (f a))
      → Ensures Q (r >>= f)
  Ensures-bind (holds {a} h) k = k a h
  Ensures-bind (rejected n) k = rejected n

-- A token that closes the list it stands in closes its bracket.
closer-closes : (b : Bracket) (s : Shape) → inside b s ≡ closer → s ≡ closes b
closer-closes paren (closes paren) h = refl
closer-closes square (closes square) h = refl
closer-closes b s h = ground arith

abbrev Read : List Token → Sx × List Token → Type 0
Read ts (sx, rest) = IsWell sx × (ts ≡ flatten sx ++ rest)

abbrev ReadItems : Bracket → List Token → Items × Token × List Token → Type 0
ReadItems b ts (xs, close, rest) =
    AreWell xs × (shape close.kind ≡ closes b) × (ts ≡ flatten_items xs ++ close ∷ rest)

length-flatten_pos : (x : Sx) → 0 < length (flatten x)
unfolding flatten
length-flatten_pos (atom t) = omega arith
length-flatten_pos (list t xs close) = omega arith

Shape-cases :
    (s : Shape) → (s ≡ plain) ⊎ ((b : Bracket) × (s ≡ opens b)) ⊎ ((b : Bracket) × (s ≡ closes b))
Shape-cases (opens b) = inr (inl (b, refl))
Shape-cases (closes b) = inr (inr (b, refl))
Shape-cases plain = inl refl

Inside-cases : (i : Inside) → (i ≡ closer) ⊎ (i ≡ other_closer) ⊎ (i ≡ item)
Inside-cases closer = inl refl
Inside-cases other_closer = inr (inl refl)
Inside-cases item = inr (inr refl)

mutual
  unfolding read flatten

  read-Ensures : (f : ℕ) (ts : List Token) → 2 * length ts < f → Ensures (Read ts) (read f ts)
  read-Ensures zero ts h = absurd (omega arith)
  read-Ensures (suc f) [] h = rejected (cc)
  read-Ensures (suc f) (t ∷ ts) h = elim (Shape-cases (shape t.kind)) [
    | inl p ↦ rw (read-plain f t ts p) (holds (well_atom p, refl))
    | inr (inl (b, p)) ↦ rw (read-opens f t ts b p) (
        Ensures-bind (read_items-Ensures f t b ts (omega arith))
          λ (xs, close, rest) (w, q, e). holds (well_list b p q w, simp (e, append_assoc)))
    | inr (inr (b, p)) ↦ rw (p, read) (rejected (cc))
  ]

  read_items-Ensures :
      (f : ℕ) (o : Token) (b : Bracket) (ts : List Token)
      → 2 * length ts + 1 < f
      → Ensures (ReadItems b ts) (read_items f o b ts)
  read_items-Ensures zero o b ts h = absurd (omega arith)
  read_items-Ensures (suc f) o b [] h = rejected (cc)
  read_items-Ensures (suc f) o b (t ∷ ts) h = elim (Inside-cases (inside b (shape t.kind))) [
    | inl p ↦
        rw (read_items-closes f t ts o b p)
          (holds (well_nil, closer-closes b (shape t.kind) p, refl))
    | inr (inl p) ↦ rw (p, read_items) (rejected (cc))
    | inr (inr p) ↦ rw (read_items-item f t ts o b p) (
        Ensures-bind (read-Ensures f (t ∷ ts) (omega arith)) λ (x, rest) (wx, e).
          Ensures-bind
            (read_items-Ensures f o b rest (omega (lengths, ap length e, length-flatten_pos x)))
            λ (xs, close, after) (w, q, e'). holds (well_cons wx w, q, simp (e, e', append_assoc)))
  ]

-- With enough fuel the reader fails with one of its messages, or returns a well-bracketed form and has
-- consumed exactly its tokens.
pub read_sound :
    (f : ℕ) (ts : List Token)
    → 2 * length ts < f
    → Ensures (λ (sx, rest). IsWell sx × (ts ≡ flatten sx ++ rest)) (read f ts)
read_sound = read-Ensures

abbrev Reads : List Token → Sx → Type 0
Reads ts s = IsWell s × (ts ≡ flatten s)

whole-Ensures :
    (ts : List Token) (sx : Sx) (rest : List Token)
    → IsWell sx
    → ts ≡ flatten sx ++ rest
    → Ensures (Reads ts) (whole (sx, rest))
whole-Ensures ts sx [] w e = holds (w, rw append-nil at e)
whole-Ensures ts sx (t ∷ rest) w e = rejected (cc)

read_whole-Ensures : (ts : List Token) → Ensures (Reads ts) (read_whole ts)
unfolding read_whole
read_whole-Ensures ts =
    Ensures-bind (read_sound (fuel_for ts) ts (omega arith))
      λ (sx, rest) (w, e). whole-Ensures ts sx rest w e

map_err-Ensures :
    {P : Sx → Type 0} {r : Result ReadError Sx} (o : Option Token)
    → Ensures P r
    → Ensures P (map_err o r)
map_err-Ensures o (holds h) = holds h
map_err-Ensures none (rejected n) = rejected n
map_err-Ensures (some t) (rejected n) = rejected (cc)

read_one-Ensures : (ts : List Token) → Ensures (Reads ts) (read_one ts)
unfolding read_one
read_one-Ensures ts = map_err-Ensures (find_split ts) (read_whole-Ensures ts)

Ensures-ok : {P : Sx → Type 0} {r : Result ReadError Sx} {s : Sx} → Ensures P r → r ≡ ok s → P s
Ensures-ok {P} (holds h) e = subst P (cc) h
Ensures-ok (rejected n) e = cc

Ensures-fuel : {P : Sx → Type 0} {r : Result ReadError Sx} → Ensures P r → r ≢ err out_of_fuel
Ensures-fuel (holds h) e = cc
Ensures-fuel (rejected n) e = n (cc)

-- Every input is read or refused with one of the program's messages: the fuel always suffices.
pub read_one-ne-out_of_fuel : (ts : List Token) → read_one ts ≢ err out_of_fuel
read_one-ne-out_of_fuel ts = Ensures-fuel (read_one-Ensures ts)

-- The reader accepts exactly the token lists of well-bracketed forms, and returns the form.
pub read_one-eq-ok_iff :
    (ts : List Token) (s : Sx) → (read_one ts ≡ ok s) ↔ (IsWell s × (ts ≡ flatten s))
read_one-eq-ok_iff ts s = (Ensures-ok (read_one-Ensures ts), λ (w, e). rw e (read_one-flatten s w))
