-- ===== src/Scopes/Invariant.antt =====
-- The invariant of the walk of src/scopes.rs: the aliases in the scopes, the scopes below the top and the
-- counts.
use aipl.Scopes.Walk.{in_scope}
use aipl.Base.{
  ℕ, ◌+◌, ◌≤◌, ◌≡◌, refl, sym, subst, String, none, some, List, [], ◌∷◌, arith, if◌then◌else◌,
  str_eq, eq_iff, Bool-cases, inl, inr, Option-cases,
}
use aipl.Base.Dict.{Dict, lookup, insert, lookup-insert}
use aipl.Token.{Token}
use aipl.Sx.{Sx, Items, atom, list, nil, cons, kind_symbol}
use aipl.Scopes.{
  Scopes, M, push_scope, pop_scope, count_of, visible, visible_in, renamed, with_symbol,
  declare_new, insert_top, tail_scopes,
}

-- A form with some of its symbols replaced by renamings of themselves.
mutual
  pub data Renames : Sx → Sx → Type 0 where
    same : (sx : Sx) → Renames sx sx
    renames_symbol :
        (t : Token) (n : String) (k : ℕ)
        → kind_symbol t.kind ≡ some n
        → Renames (atom t) (with_symbol t (renamed k n))
    renames_list :
        (o c : Token) (xs ys : Items) → RenamesAll xs ys → Renames (list o xs c) (list o ys c)

  pub data RenamesAll : Items → Items → Type 0 where
    renames_nil : RenamesAll nil nil
    renames_cons :
        (x y : Sx) (xs ys : Items)
        → Renames x y
        → RenamesAll xs ys
        → RenamesAll (cons x xs) (cons y ys)

pub same_items : (xs : Items) → RenamesAll xs xs
same_items nil = renames_nil
same_items (cons x xs) = renames_cons x x xs xs (same x) (same_items xs)

-- `v` is one of the renamings of `n` that have been given out.
abbrev pub IsAlias : Dict ℕ → String → String → Type 0
IsAlias seen n v = (k : ℕ) × (k ≤ count_of n seen) × (v ≡ renamed k n)

abbrev pub AllAliases : Dict ℕ → Dict String → Type 0
AllAliases seen m = (n v : String) → lookup n m ≡ some v → IsAlias seen n v

pub data IsSound : Dict ℕ → List (Dict String) → Type 0 where
  bottom : (seen : Dict ℕ) (m : Dict String) → AllAliases seen m → IsSound seen (m ∷ [])
  above :
      (seen : Dict ℕ) (m : Dict String) (ms : List (Dict String))
      → AllAliases seen m
      → IsSound seen ms
      → IsSound seen (m ∷ ms)

abbrev pub CountsUp : Dict ℕ → Dict ℕ → Type 0
CountsUp a b = (n : String) → count_of n a ≤ count_of n b

-- The scopes below the innermost are as they were, and the innermost keeps its names.
pub data Extends : List (Dict String) → List (Dict String) → Type 0 where
  extends :
      (m m' : Dict String) (ms : List (Dict String))
      → ((n v : String) → lookup n m ≡ some v → lookup n m' ≡ some v)
      → Extends (m ∷ ms) (m' ∷ ms)

pub record Keeps (s s' : Scopes) : Type 0 where
  pub is_sound : IsSound s'.seen s'.stack
  pub counts : CountsUp s.seen s'.seen
  pub stack : Extends s.stack s'.stack

-- What a part of the walk does: it keeps the state, and `R` holds of what it returns.
abbrev pub Does : {A : Type 0} → (A → Type 0) → M A → Type 0
Does R m = (s : Scopes) → IsSound s.seen s.stack → R (m s).0 × Keeps s (m s).1

Extends-trans : {a b c : List (Dict String)} → Extends a b → Extends b c → Extends a c
Extends-trans (extends m m' ms f) (extends _ m'' _ g) = extends m m'' ms (λ n v h. g n v (f n v h))

Extends-self : {seen : Dict ℕ} {a : List (Dict String)} → IsSound seen a → Extends a a
Extends-self (bottom _ m _) = extends m m [] (λ n v h. h)
Extends-self (above _ m ms _ _) = extends m m ms (λ n v h. h)

pub Keeps-self : (s : Scopes) → IsSound s.seen s.stack → Keeps s s
Keeps-self s h = record { is_sound = h; counts = λ n. omega arith; stack = Extends-self h }

pub Keeps-trans : {a b c : Scopes} → Keeps a b → Keeps b c → Keeps a c
Keeps-trans f g = record {
  is_sound = g.is_sound;
  counts = λ n. omega (arith, f.counts n, g.counts n);
  stack = Extends-trans f.stack g.stack;
}

pub count-insert :
    (n j : String) (k : ℕ) (seen : Dict ℕ)
    → count_of j (insert n k seen) ≡ (if str_eq n j then k else count_of j seen)
count-insert n j k seen = ground (arith, lookup-insert n j k seen)

CountsUp-insert : (n : String) (seen : Dict ℕ) → CountsUp seen (insert n (count_of n seen + 1) seen)
CountsUp-insert n seen j = ground (arith, count-insert n j (count_of n seen + 1) seen, eq_iff n j)

pub counts-AllAliases :
    (a b : Dict ℕ) (m : Dict String) → CountsUp a b → AllAliases a m → AllAliases b m
counts-AllAliases a b m up h n v e = let (k, l, q) = h n v e in (k, omega (arith, up n), q)

pub counts-IsSound :
    {a b : Dict ℕ} {ms : List (Dict String)} → CountsUp a b → IsSound a ms → IsSound b ms
counts-IsSound {a = a} {b = b} up (bottom _ m h) = bottom _ m (counts-AllAliases a b m up h)
counts-IsSound {a = a} {b = b} up (above _ m ms h r) =
    above _ m ms (counts-AllAliases a b m up h) (counts-IsSound up r)

-- An insertion of the next renaming.
insert-AllAliases :
    (seen : Dict ℕ) (n : String) (m : Dict String)
    → AllAliases seen m
    → let k = count_of n seen + 1 in AllAliases (insert n k seen) (insert n (renamed k n) m)
insert-AllAliases seen n m h j v e =
    let k = count_of n seen + 1 in
    elim (Bool-cases (str_eq n j)) [
      | inl t ↦ (
        k,
        ground (arith, count-insert n j k seen),
        ground (arith, eq_iff n j, lookup-insert n j (renamed k n) m),
      )
      | inr f ↦
          counts-AllAliases seen (insert n k seen) m (CountsUp-insert n seen) h j v
            (ground (arith, lookup-insert n j (renamed k n) m))
    ]

pub IsSound-visible :
    {seen : Dict ℕ} {ms : List (Dict String)} (n v : String)
    → IsSound seen ms
    → visible_in ms n ≡ some v
    → IsAlias seen n v
unfolding visible_in
IsSound-visible n v (bottom _ m h) e = h n v (ground arith)
IsSound-visible n v (above _ m ms h r) e = elim (Option-cases (lookup n m)) [
  | inl q ↦ IsSound-visible n v r (ground arith)
  | inr (w, q) ↦ h n v (ground arith)
]

Extends-tail :
    {m : Dict String} {ms b : List (Dict String)} → Extends (m ∷ ms) b → tail_scopes b ≡ ms
Extends-tail (extends _ _ _ _) = refl

-- A scope of its own leaves the stack as it was.
pub in_scope-Does : {A : Type 0} (R : A → Type 0) (m : M A) → Does R m → Does R (in_scope m)
unfolding push_scope pop_scope lookup
in_scope-Does R m d s h =
    let inner : Scopes = record { seen = s.seen; stack = [] ∷ s.stack } in
    let (r, k) = d inner (above _ [] s.stack (λ n v e. (cc)) h) in
    let t = Extends-tail k.stack in
    (
      r,
      record {
        is_sound = subst (IsSound (m inner).1.seen) (sym t) (counts-IsSound k.counts h);
        counts = k.counts;
        stack = subst (Extends s.stack) (sym t) (Extends-self h);
      },
    )

pub in_scope-stack :
    {A : Type 0} (R : A → Type 0) (m : M A)
    → Does R m
    → (s : Scopes) → IsSound s.seen s.stack
    → (in_scope m s).1.stack ≡ s.stack
unfolding push_scope pop_scope lookup
in_scope-stack R m d s h =
    let inner : Scopes = record { seen = s.seen; stack = [] ∷ s.stack } in
    Extends-tail (d inner (above _ [] s.stack (λ n v e. cc) h)).1.stack

insert-Grows :
    (n v : String) (m : Dict String)
    → lookup n m ≡ none
    → (j w : String) → lookup j m ≡ some w
    → lookup j (insert n v m) ≡ some w
insert-Grows n v m h j w e = ground (arith, eq_iff n j, lookup-insert n j v m)

insert_top-IsSound :
    (n : String) {seen : Dict ℕ} {ms : List (Dict String)}
    → IsSound seen ms
    → let k = count_of n seen + 1 in IsSound (insert n k seen) (insert_top n (renamed k n) ms)
insert_top-IsSound n (bottom seen m h) = bottom _ _ (insert-AllAliases seen n m h)
insert_top-IsSound n (above seen m ms h r) =
    above _ _ ms (insert-AllAliases seen n m h) (counts-IsSound (CountsUp-insert n seen) r)

insert_top-Extends :
    (n v : String) {seen : Dict ℕ} {ms : List (Dict String)}
    → IsSound seen ms
    → visible_in ms n ≡ none
    → Extends ms (insert_top n v ms)
unfolding visible_in
insert_top-Extends n v (bottom seen m h) e = extends m _ [] (insert-Grows n v m (ground arith))
insert_top-Extends n v (above seen m ms h r) e = extends m _ ms (insert-Grows n v m (ground arith))

pub declare_new-Keeps :
    (n : String) (s : Scopes)
    → IsSound s.seen s.stack
    → visible s n ≡ none
    → Keeps s (declare_new n s).1
unfolding declare_new
declare_new-Keeps n s h e = record {
  is_sound = insert_top-IsSound n h;
  counts = CountsUp-insert n s.seen;
  stack = insert_top-Extends n _ h e;
}
