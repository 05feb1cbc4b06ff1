-- ===== src/Sx/RoundTrip.antt =====
-- Well-bracketed forms, and reading what one flattens to: src/sexpr.rs.
use aipl.Base.{
  ℕ, zero, suc, ◌+◌, ◌*◌, ◌≤◌, ◌<◌, ◌≡◌, refl, ap, List, [], ◌∷◌, ◌++◌, append_assoc, append-nil,
  Result, ok, ◌>>=◌, length, length-append, arith,
}
use aipl.Token.{Token}
use aipl.Sx.{
  Sx, Items, atom, list, nil, cons, Bracket, paren, square, opens, closes, plain, shape, flatten,
  flatten_items,
}
use aipl.Sx.Reader.{read, read_items, closer, item, inside, fuel_for, read_whole, read_one}

-- Atoms are no brackets, and the two brackets of a list are a pair.
mutual
  pub data IsWell : Sx → Type 0 where
    well_atom : {t : Token} → shape t.kind ≡ plain → IsWell (atom t)
    well_list :
        {t close : Token} {xs : Items} (b : Bracket)
        → shape t.kind ≡ opens b
        → shape close.kind ≡ closes b
        → AreWell xs
        → IsWell (list t xs close)

  pub data AreWell : Items → Type 0 where
    well_nil : AreWell nil
    well_cons : {x : Sx} {xs : Items} → IsWell x → AreWell xs → AreWell (cons x xs)

-- For `omega`, on tokens.
pub length-append_tokens : (xs ys : List Token) → length (xs ++ ys) ≡ length xs + length ys
length-append_tokens = length-append

pub ruleset lengths = (arith, length-append_tokens)

inside-closes : (b : Bracket) → inside b (closes b) ≡ closer
inside-closes paren = refl
inside-closes square = refl

inside-plain : (b : Bracket) → inside b plain ≡ item
inside-plain paren = refl
inside-plain square = refl

inside-opens : (b c : Bracket) → inside b (opens c) ≡ item
inside-opens paren c = refl
inside-opens square c = refl

-- A well-bracketed form begins with a token that starts an item.
starts_item :
    (b : Bracket) {x : Sx}
    → IsWell x
    → (t : Token) × (ts : List Token) × (flatten x ≡ t ∷ ts) × (inside b (shape t.kind) ≡ item)
unfolding flatten
starts_item b (well_atom {t} p) = (t, [], refl, rw p (inside-plain b))
starts_item b (well_list {t} {close} {xs} c p q w) =
    (t, flatten_items xs ++ close ∷ [], refl, rw p (inside-opens b c))

-- What `read` and `read_items` do, by the shape of the first token.
module _ (f : ℕ) (t : Token) (ts : List Token) where
  pub read-plain : shape t.kind ≡ plain → read (suc f) (t ∷ ts) ≡ ok (atom t, ts)
  unfolding read
  read-plain h = rw (h, read)

  pub read-opens :
      (b : Bracket)
      → shape t.kind ≡ opens b
      → read (suc f) (t ∷ ts)
        ≡ (do (xs, close, rest) ← read_items f t b ts; ok (list t xs close, rest))
  unfolding read
  read-opens b h = rw (h, read)

  pub read_items-closes :
      (o : Token) (b : Bracket)
      → inside b (shape t.kind) ≡ closer
      → read_items (suc f) o b (t ∷ ts) ≡ ok (nil, t, ts)
  unfolding read
  read_items-closes o b h = rw (h, read_items)

  pub read_items-item :
      (o : Token) (b : Bracket)
      → inside b (shape t.kind) ≡ item
      → read_items (suc f) o b (t ∷ ts) ≡ (do
        (x, rest) ← read f (t ∷ ts)
        (xs, close, after) ← read_items f o b rest
        ok (cons x xs, close, after))
  unfolding read
  read_items-item o b h = rw (h, read_items)

mutual
  unfolding flatten

  read-flatten_well :
      {s : Sx} (w : IsWell s) (f : ℕ) (rest : List Token)
      → 2 * length (flatten s) ≤ f
      → read f (flatten s ++ rest) ≡ ok (s, rest)
  read-flatten_well (well_atom {t} p) zero rest h = absurd (omega arith)
  read-flatten_well (well_atom {t} p) (suc f) rest h = read-plain f t rest p
  read-flatten_well (well_list {t} {close} {xs} b p q w) zero rest h = absurd (omega arith)
  read-flatten_well (well_list {t} {close} {xs} b p q w) (suc f) rest h =
      rw (
        read-opens f t _ b p,
        append_assoc,
        read_items-flatten w f t b close rest q (omega lengths),
      )

  read_items-flatten :
      {xs : Items} (w : AreWell xs) (f : ℕ) (o : Token) (b : Bracket) (close : Token)
      (rest : List Token)
      → shape close.kind ≡ closes b
      → 2 * length (flatten_items xs) < f
      → read_items f o b (flatten_items xs ++ close ∷ rest) ≡ ok (xs, close, rest)
  read_items-flatten well_nil zero o b close rest q h = absurd (omega arith)
  read_items-flatten well_nil (suc f) o b close rest q h =
      read_items-closes f close rest o b (rw q (inside-closes b))
  read_items-flatten (well_cons {x} {xs} wx w) zero o b close rest q h = absurd (omega arith)
  read_items-flatten (well_cons {x} {xs} wx w) (suc f) o b close rest q h =
      let (t, ts, e, i) = starts_item b wx in
      let after = flatten_items xs ++ close ∷ rest in
      let first = read-flatten_well wx f after (omega lengths) in
      let others = read_items-flatten w f o b close rest q (omega (lengths, ap length e)) in
      let at_token = rw e at first in
      rw (append_assoc, e, read_items-item f t (ts ++ after) o b i) (rw at_token (rw others))

-- With two units of fuel for each token, the reader reads a well-bracketed form off the front of any
-- input.
pub read-flatten :
    (s : Sx) (f : ℕ) (rest : List Token)
    → IsWell s
    → 2 * length (flatten s) ≤ f
    → read f (flatten s ++ rest) ≡ ok (s, rest)
read-flatten s f rest w h = read-flatten_well w f rest h

pub read_whole-flatten : (s : Sx) → IsWell s → read_whole (flatten s) ≡ ok s
unfolding read_whole
read_whole-flatten s w =
    let r = read-flatten s (fuel_for (flatten s)) [] w (omega arith) in rw (rw append-nil at r)

-- The tokens of a well-bracketed form read as that form, whatever its strings hold.
pub read_one-flatten : (s : Sx) → IsWell s → read_one (flatten s) ≡ ok s
unfolding read_one
read_one-flatten s w = rw (read_whole-flatten s w)
