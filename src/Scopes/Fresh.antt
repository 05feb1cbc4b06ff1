-- ===== src/Scopes/Fresh.antt =====
-- The names that src/scopes.rs gives the declarations of a function.
use Prim.Native.String.{◌++◌}
use text.Mathlib.TextLemmas.{append_cancel_left, append_cancel_right}
use aipl.Base.{
  ℕ, ◌+◌, ◌≡◌, ◌≢◌, refl, sym, ◌∙◌, ap, subst, String, List, [], ◌∷◌, some, All, ◌≤◌, eq_iff, true,
  false, none, arith, Bool-cases, inl, inr, ◌==◌, zero,
}
use aipl.Text.Decimal.{decimal}
use aipl.Text.Strings.{value, value-decimal}
use aipl.Base.Dict.{Dict, insert}
use aipl.Scopes.Locals.{declare_param, empty_scopes}
use aipl.Scopes.{
  Scopes, visible, count_of, renamed, declare_name, declare_new, push_scope, pop_scope,
}
use aipl.Scopes.Shown.{shown, ends_name}
use aipl.Scopes.Invariant.{IsAlias, count-insert}
use aipl.Scopes.Names.{IsLocal, shown-renamed, literal-append, quote, IsLocal-cons, local_char}

-- A renaming tells the name and the number of its declaration.
renamed_inj_name :
    (k j : ℕ) (n m : String) → IsLocal n → IsLocal m → renamed k n ≡ renamed j m → n ≡ m
renamed_inj_name k j n m h g e = sym (shown-renamed k n h) ∙ ap shown e ∙ shown-renamed j m g

marked-ne-name : (k : ℕ) (n : String) → IsLocal n → n ≢ "'" ++ (decimal k ++ ("." ++ n))
unfolding local_char ends_name
marked-ne-name k n h e =
    let marked = decimal k ++ ("." ++ n) in
    let h' = subst IsLocal (e ∙ literal-append quote marked) h in
    let bad : false ≡ true = (IsLocal-cons quote marked h').0 in
    let z : zero ≡ 1 = cc in omega (arith, z)

renamed_inj_number : (k j : ℕ) (n : String) → IsLocal n → renamed k n ≡ renamed j n → k ≡ j
unfolding renamed
renamed_inj_number k j n h e = elim (Bool-cases (k == 1)) [
  | inl a ↦ elim (Bool-cases (j == 1)) [
    | inl b ↦ ground arith
    | inr b ↦ absurd (marked-ne-name j n h (rw (a, b) at e))
  ]
  | inr a ↦ elim (Bool-cases (j == 1)) [
    | inl b ↦ absurd (marked-ne-name k n h (sym (rw (a, b) at e)))
    | inr b ↦
        let digits =
          append_cancel_right (decimal k) (decimal j) ("." ++ n)
            (append_cancel_left "'" _ _ (rw (a, b) at e)) in
        sym (value-decimal k) ∙ ap (value 0) digits ∙ value-decimal j
  ]
]

-- The renaming after those counted so far is none of them.
renamed-fresh :
    (n m v : String) (seen : Dict ℕ)
    → IsLocal n
    → IsLocal m
    → IsAlias seen m v
    → v ≢ renamed (count_of n seen + 1) n
renamed-fresh n m v seen h g (k, l, a) e =
    let next = count_of n seen + 1 in
    let same = sym a ∙ e in
    let names : m ≡ n = renamed_inj_name k next m n g h same in
    let numbers =
      renamed_inj_number k next n h (subst (λ x. renamed k x ≡ renamed next n) names same) in
    let counts = ap (λ x. count_of x seen) names in omega (arith, l, numbers, counts)

-- The scopes that a function's declarations lead to, and the names that these were given, the last one
-- first: its parameters, each declared once, and then the names declared where they are not visible.
-- Scopes are opened and closed between them, and names that are visible declared again, at will.
pub data Declares : Scopes → List String → Type 0 where
  nothing : Declares empty_scopes []
  param :
      {s : Scopes} {vs : List String} (n : String)
      → Declares s vs
      → IsLocal n
      → count_of n s.seen ≡ 0
      → Declares (declare_param (some n) s) (n ∷ vs)
  declared :
      {s : Scopes} {vs : List String} (n : String)
      → Declares s vs
      → IsLocal n
      → visible s n ≡ none
      → Declares (declare_name n s).1 ((declare_name n s).0 ∷ vs)
  again :
      {s : Scopes} {vs : List String} (n v : String)
      → Declares s vs
      → visible s n ≡ some v
      → Declares (declare_name n s).1 vs
  opened : {s : Scopes} {vs : List String} → Declares s vs → Declares (push_scope s).1 vs
  closed : {s : Scopes} {vs : List String} → Declares s vs → Declares (pop_scope s).1 vs

-- No name of the list is there twice.
abbrev pub AllDifferent : List String → Type 0
AllDifferent [] = Unit
AllDifferent (v ∷ vs) = All (λ w. w ≢ v) vs × AllDifferent vs

-- A renaming of a local's name that has been counted.
abbrev IsCounted : Dict ℕ → String → Type 0
IsCounted seen v = (m : String) × IsLocal m × IsAlias seen m v

All-map :
    {P Q : String → Type 0} (vs : List String) → ((v : String) → P v → Q v) → All P vs → All Q vs
All-map [] f h = tt
All-map (v ∷ vs) f (h, hs) = (f v h, All-map vs f hs)

-- Names counted before are counted when a count has gone up.
insert-IsCounted :
    (n : String) (k : ℕ) (seen : Dict ℕ) (vs : List String)
    → count_of n seen ≤ k
    → All (IsCounted seen) vs
    → All (IsCounted (insert n k seen)) vs
insert-IsCounted n k seen vs up = All-map vs (λ v (m, local, (j, l, a)).
    (m, local, (j, ground (arith, count-insert n m k seen, eq_iff n m), a)))

-- What every declaration keeps.
abbrev Told : Scopes → List String → Type 0
Told s vs = All (IsCounted s.seen) vs × AllDifferent vs

-- One more name, with the count of its declarations.
told-next :
    (n : String) (seen : Dict ℕ) (vs : List String)
    → IsLocal n
    → All (IsCounted seen) vs
    → AllDifferent vs
    → let k = count_of n seen + 1 in
      All (IsCounted (insert n k seen)) (renamed k n ∷ vs) × AllDifferent (renamed k n ∷ vs)
told-next n seen vs local counted different =
    let k = count_of n seen + 1 in
    (
      (
        (n, local, (k, ground (arith, count-insert n n k seen, eq_iff n n), refl)),
        insert-IsCounted n k seen vs (omega arith) counted,
      ),
      (
        All-map vs (λ w (m, other, alias). renamed-fresh n m w seen local other alias) counted,
        different,
      ),
    )

declare_name-new :
    (n : String) (s : Scopes) → visible s n ≡ none → declare_name n s ≡ declare_new n s
unfolding declare_name
declare_name-new n s e = rw (e, declare_name) refl

declare_name-again : (n v : String) (s : Scopes) → visible s n ≡ some v → declare_name n s ≡ (v, s)
unfolding declare_name
declare_name-again n v s e = rw (e, declare_name) refl

Declares-Told : {s : Scopes} {vs : List String} → Declares s vs → Told s vs
unfolding declare_name declare_new push_scope pop_scope renamed
Declares-Told nothing = (tt, tt)
Declares-Told (param {s = s} {vs = vs} n h local none_yet) =
    let (counted, different) = Declares-Told h in
    subst
      (λ c.
        All (IsCounted (insert n (c + 1) s.seen)) (renamed (c + 1) n ∷ vs)
        × AllDifferent (renamed (c + 1) n ∷ vs))
      none_yet (told-next n s.seen vs local counted different)
Declares-Told (declared {s = s} {vs = vs} n h local hidden) =
    let (counted, different) = Declares-Told h in
    subst (λ r. Told r.1 (r.0 ∷ vs)) (sym (declare_name-new n s hidden))
      (told-next n s.seen vs local counted different)
Declares-Told (again {s = s} {vs = vs} n v h found) =
    subst (λ r. Told r.1 vs) (sym (declare_name-again n v s found)) (Declares-Told h)
Declares-Told (opened h) = Declares-Told h
Declares-Told (closed h) = Declares-Told h

-- No two of the names that a function's parameters, and its declarations of names that are not visible,
-- are given are the same, where the names declared hold no space, bracket, comma, colon, quote or dot,
-- and each parameter is declared once.
pub Declares-AllDifferent : {s : Scopes} {vs : List String} → Declares s vs → AllDifferent vs
Declares-AllDifferent h = (Declares-Told h).1
