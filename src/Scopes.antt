-- ===== src/Scopes.antt =====
-- The scopes of local names: src/scopes.rs. `Scopes` is threaded through a state monad, and the
-- innermost scope stands first on the stack.
pub mod Form
pub mod Walk
pub mod Locals
pub mod Invariant
pub mod Declared
pub mod Correct
pub mod Faithful
pub mod Shown
pub mod Names
pub mod Fresh
mod Tests
use Prim.Native.String.{◌++◌}
use aipl.Base.{
  ℕ, suc, ◌+◌, ◌==◌, String, Bool, true, false, Option, none, some, List, [], ◌∷◌, if◌then◌else◌,
}
use aipl.Base.Dict.{Dict, lookup, insert}
use aipl.Text.Decimal.{decimal}
use aipl.Token.{TokenKind, Token, symbol}
use aipl.Sx.{Sx, atom, list, kind_symbol}

pub record Scopes : Type 0 where
  -- how many times each name has been declared in the function
  pub seen : Dict ℕ
  -- the names visible: as written, as renamed
  pub stack : List (Dict String)

abbrev pub M : Type 0 → Type 0
M A = Scopes → A × Scopes

abbrev pub pure : {A : Type 0} → A → M A
pure a s = (a, s)

infixl 5 ◌>>=◌ ◌>>◌
abbrev pub ◌>>=◌ {ℓ} : {A : Type 0} {R : Type ℓ} → M A → (A → Scopes → R) → Scopes → R
◌>>=◌ first rest before = let (result, after) = first before in rest result after

abbrev pub ◌>>◌ {ℓ} : {R : Type ℓ} → M (Unit {0}) → (Scopes → R) → Scopes → R
◌>>◌ first rest before = rest (first before).1

-- The first scope, from the innermost out, that has the name.
unfoldable pub visible_in : List (Dict String) → String → Option String
visible_in [] n = none
visible_in (m ∷ ms) n =
    let outer = visible_in ms n in elim (lookup n m) [ some v ↦ some v | none ↦ outer ]

abbrev pub visible : Scopes → String → Option String
visible s n = visible_in s.stack n

abbrev pub count_of : String → Dict ℕ → ℕ
count_of n seen = elim (lookup n seen) [ some k ↦ k | none ↦ 0 ]

-- The name of the K-th declaration of `n`.
unfoldable pub renamed : ℕ → String → String
renamed k n = if k == 1 then n else "'" ++ decimal k ++ "." ++ n

abbrev pub insert_top : String → String → List (Dict String) → List (Dict String)
insert_top n v [] = []
insert_top n v (m ∷ ms) = insert n v m ∷ ms

abbrev pub with_symbol : Token → String → Sx
with_symbol t v = atom (record { kind = symbol v; line = t.line; col = t.col })

-- The K-th declaration of a name that is not visible.
unfoldable pub declare_new : String → M String
unfolding renamed
declare_new n s =
    let k = count_of n s.seen + 1 in
    let v = renamed k n in (v, record { seen = insert n k s.seen; stack = insert_top n v s.stack })

-- A name that is still visible keeps the name that it has.
unfoldable pub declare_name : String → M String
unfolding declare_new
declare_name n s = elim (visible s n) [ some v ↦ (v, s) | none ↦ declare_new n s ]

abbrev pub declare_symbol : Token → Option String → M Sx
declare_symbol t none = pure (atom t)
declare_symbol t (some n) = do v ← declare_name n; pure (with_symbol t v)

unfoldable pub declare : Sx → M Sx
unfolding declare_name
declare (atom t) = declare_symbol t (kind_symbol t.kind)
declare (list o xs c) = pure (list o xs c)

-- `self.stack.push(HashMap::new())` and `self.stack.pop()`.
unfoldable pub push_scope : M (Unit {0})
push_scope s = (tt, record s { stack = [] ∷ s.stack })

abbrev pub tail_scopes : List (Dict String) → List (Dict String)
tail_scopes [] = []
tail_scopes (_ ∷ ms) = ms

unfoldable pub pop_scope : M (Unit {0})
pop_scope s = (tt, record s { stack = tail_scopes s.stack })

-- A use of a name that is visible becomes the name that it has.
abbrev pub use_symbol : Token → Option String → M Sx
use_symbol t none s = (atom t, s)
use_symbol t (some n) s = elim (visible s n) [ some v ↦ (with_symbol t v, s) | none ↦ (atom t, s) ]
