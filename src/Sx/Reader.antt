-- ===== src/Sx/Reader.antt =====
-- `Sx::read` and `Sx::read_one` of src/sexpr.rs. Each message is a constructor of `ReadError`.
use aipl.Base.{
  ℕ, zero, suc, ◌*◌, Bool, true, false, ◌&&◌, not, Option, none, some, List, [], ◌∷◌, Result, ok,
  err, ◌>>=◌, length, if◌then◌else◌,
}
use aipl.Token.{TokenKind, Token, Pos, token_pos, string_lit}
use aipl.Sx.{
  Sx, Items, atom, list, nil, cons, Bracket, paren, square, Shape, opens, closes, plain, shape,
  ends_in_placeholder,
}

pub data ReadError : Type 0 where
  unexpected_end : ReadError
  never_closed mismatched unexpected_close unexpected_input open_placeholder : Pos → ReadError
  -- no message of the program: the model's recursion ran out
  out_of_fuel : ReadError

-- What a token means inside a list whose bracket is `b`.
pub data Inside : Type 0 where
  closer other_closer item : Inside

abbrev pub inside : Bracket → Shape → Inside
inside paren (closes paren) = closer
inside square (closes square) = closer
inside _ (closes _) = other_closer
inside _ _ = item

unfoldable mutual
  pub read : ℕ → List Token → Result ReadError (Sx × List Token)
  read zero ts = err out_of_fuel
  read (suc f) [] = err unexpected_end
  read (suc f) (t ∷ ts) = elim (shape t.kind) [
    | opens b ↦ (do (xs, close, rest) ← read_items f t b ts; ok (list t xs close, rest))
    | closes _ ↦ err (unexpected_close (token_pos t))
    | plain ↦ ok (atom t, ts)
  ]

  pub read_items : ℕ → Token → Bracket → List Token → Result ReadError (Items × Token × List Token)
  read_items zero opening b ts = err out_of_fuel
  read_items (suc f) opening b [] = err (never_closed (token_pos opening))
  read_items (suc f) opening b (t ∷ ts) = elim (inside b (shape t.kind)) [
    | closer ↦ ok (nil, t, ts)
    | other_closer ↦ err (mismatched (token_pos t))
    | item ↦ (do
      (x, rest) ← read f (t ∷ ts)
      (xs, close, after) ← read_items f opening b rest
      ok (cons x xs, close, after))
  ]

-- Two units for each token, and one for the call.
abbrev pub fuel_for : List Token → ℕ
fuel_for ts = suc (2 * length ts)

-- The form must be the whole input.
abbrev pub whole : Sx × List Token → Result ReadError Sx
whole (sx, []) = ok sx
whole (sx, t ∷ _) = err (unexpected_input (token_pos t))

-- The closure `read` of `read_one`.
unfoldable pub read_whole : List Token → Result ReadError Sx
read_whole ts = read (fuel_for ts) ts >>= whole

abbrev pub kind_ends_in_placeholder : TokenKind → Bool
kind_ends_in_placeholder (string_lit s) = ends_in_placeholder s
kind_ends_in_placeholder _ = false

abbrev pub is_closer : Shape → Bool
is_closer (closes _) = true
is_closer _ = false

-- The first string that ends inside a placeholder and has more code after it.
unfoldable pub find_split : List Token → Option Token
find_split [] = none
find_split (t ∷ []) = none
find_split (t ∷ n ∷ rest) =
    let later = find_split (n ∷ rest) in
    if kind_ends_in_placeholder t.kind && not (is_closer (shape n.kind)) then some t else later

-- An error says instead that a string's placeholder is open, where one is.
abbrev pub map_err : Option Token → Result ReadError Sx → Result ReadError Sx
map_err _ (ok sx) = ok sx
map_err none (err e) = err e
map_err (some t) (err e) = err (open_placeholder (token_pos t))

unfoldable pub read_one : List Token → Result ReadError Sx
read_one ts = map_err (find_split ts) (read_whole ts)
