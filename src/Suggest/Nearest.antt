-- ===== src/Suggest/Nearest.antt =====
-- `nearest_name` of src/parser.rs: the candidates' keys and their order.
use aipl.Base.{
  ℕ, suc, ◌≤◌, ◌<◌, leb, ltb, ◌==◌, Bool, true, false, ◌&&◌, Option, none, some, List, [], ◌∷◌,
  length, All, if◌then◌else◌, ◌≡◌, ◌⊎◌, inl, inr, refl, subst, arith, Bool-cases,
}
use aipl.Base.Tests.{leb→le}
use aipl.Suggest.{edit_distance}

unfoldable pub same_bytes : List ℕ → List ℕ → Bool
same_bytes [] [] = true
same_bytes (x ∷ a) (y ∷ b) = x == y && same_bytes a b
same_bytes _ _ = false

-- `replace('_', "")`.
unfoldable pub squeeze : List ℕ → List ℕ
squeeze [] = []
squeeze (x ∷ a) = let rest = squeeze a in if x == b'_' then rest else x ∷ rest

-- How many bytes two names begin with alike.
unfoldable pub shared : List ℕ → List ℕ → ℕ
shared (x ∷ a) (y ∷ b) = let more = suc (shared a b) in if x == y then more else 0
shared _ _ = 0

-- The order of texts.
unfoldable pub bytes_le : List ℕ → List ℕ → Bool
bytes_le [] b = true
bytes_le (x ∷ a) [] = false
bytes_le (x ∷ a) (y ∷ b) = let later = bytes_le a b in if x == y then later else ltb x y

-- What candidates are compared by: the closest, then the one that begins more alike, then the first.
pub record Key : Type 0 where
  pub distance : ℕ
  pub alike : ℕ
  pub candidate : List ℕ

unfoldable pub key_le : Key → Key → Bool
key_le a b =
    if ltb a.distance b.distance
    then true
    else if ltb b.distance a.distance
    then false
    else if ltb b.alike a.alike
    then true
    else if ltb a.alike b.alike
    then false
    else bytes_le a.candidate b.candidate

unfoldable pub key_of : List ℕ → List ℕ → Key
key_of name c = record {
  distance = edit_distance (squeeze name) (squeeze c);
  alike = shared name c;
  candidate = c;
}

-- The keys of the other names that are near enough.
unfoldable pub near_keys : ℕ → List ℕ → List (List ℕ) → List Key
near_keys limit name [] = []
near_keys limit name (c ∷ cs) =
    let rest = near_keys limit name cs in
    let k = key_of name c in
    if same_bytes c name then rest else if leb k.distance limit then k ∷ rest else rest

-- `min()`: of equal keys the first.
unfoldable pub least : List Key → Option Key
least [] = none
least (k ∷ ks) = elim (least ks) [ none ↦ some k | some m ↦ if key_le k m then some k else some m ]

-- The edits allowed for a name of so many bytes.
unfoldable pub edits_allowed : ℕ → Option ℕ
edits_allowed n = if leb n 2 then none else if leb n 5 then some 1 else some 2

unfoldable pub nearest_name : List ℕ → List (List ℕ) → Option (List ℕ)
nearest_name name cs = elim (edits_allowed (length (squeeze name))) [
  | none ↦ none
  | some limit ↦ elim (least (near_keys limit name cs)) [ none ↦ none | some k ↦ some k.candidate ]
]

abbrev pub distance_to : List ℕ → List ℕ → ℕ
distance_to name c = (key_of name c).distance

abbrev pub In : List ℕ → List (List ℕ) → Type 0
In c [] = ⊥
In c (x ∷ cs) = (c ≡ x) ⊎ In c cs

-- The name itself, or farther away than the limit.
abbrev Far : ℕ → List ℕ → List ℕ → Type 0
Far limit name o = (same_bytes o name ≡ true) ⊎ (limit < distance_to name o)

-- The name itself, or no nearer.
abbrev Farther : ℕ → List ℕ → List ℕ → Type 0
Farther d name o = (same_bytes o name ≡ true) ⊎ (d ≤ distance_to name o)

-- What a choice among the candidates is to be.
abbrev pub Nearest : ℕ → List ℕ → List (List ℕ) → Option Key → Type 0
Nearest limit name cs none = All (Far limit name) cs
Nearest limit name cs (some k) =
    In k.candidate cs
    × (same_bytes k.candidate name ≡ false)
    × (k.distance ≡ distance_to name k.candidate)
    × (k.distance ≤ limit)
    × All (Farther k.distance name) cs

All-map :
    {P Q : List ℕ → Type 0} (cs : List (List ℕ)) → ((c : List ℕ) → P c → Q c) → All P cs → All Q cs
All-map [] f h = tt
All-map (c ∷ cs) f (h, hs) = (f c h, All-map cs f hs)

closer :
    (d e : ℕ) (name : List ℕ) (cs : List (List ℕ))
    → d ≤ e
    → All (Farther e name) cs
    → All (Farther d name) cs
closer d e name cs h =
    All-map cs (λ o far. elim far [ inl same ↦ inl same | inr f ↦ inr (omega arith) ])

-- Another candidate that is the name itself, or too far.
skip :
    (limit : ℕ) (name c : List ℕ) (cs : List (List ℕ)) (o : Option Key)
    → (same_bytes c name ≡ true) ⊎ (limit < distance_to name c)
    → Nearest limit name cs o
    → Nearest limit name (c ∷ cs) o
skip limit name c cs none far h = (far, h)
skip limit name c cs (some k) far (there, other, exact, near, rest) = (
  inr there,
  other,
  exact,
  near,
  ((elim far [ inl same ↦ inl same | inr l ↦ inr (omega arith) ]), rest),
)

key_le-le : (a b : Key) → key_le a b ≡ true → a.distance ≤ b.distance
unfolding key_le
key_le-le a b h = ground arith

key_le-ge : (a b : Key) → key_le a b ≡ false → b.distance ≤ a.distance
unfolding key_le
key_le-ge a b h = ground arith

further :
    (limit d : ℕ) (name : List ℕ) (cs : List (List ℕ))
    → d ≤ limit
    → All (Far limit name) cs
    → All (Farther d name) cs
further limit d name cs h =
    All-map cs (λ o far. elim far [ inl same ↦ inl same | inr f ↦ inr (omega arith) ])

-- A candidate that is near enough.
chosen :
    (limit : ℕ) (name c : List ℕ) (cs : List (List ℕ)) (o : Option Key)
    → same_bytes c name ≡ false
    → distance_to name c ≤ limit
    → Nearest limit name cs o
    → Nearest limit name (c ∷ cs) (elim o [
      | none ↦ some (key_of name c)
      | some m ↦ if key_le (key_of name c) m then some (key_of name c) else some m
    ])
unfolding key_of
chosen limit name c cs none other near h =
    (inl refl, other, refl, near, (inr (omega arith), further limit _ name cs near h))
chosen limit name c cs (some m) other near (there, other', exact, near', rest) =
    elim (Bool-cases (key_le (key_of name c) m)) [
      | inl e ↦ rw e (
        inl refl,
        other,
        refl,
        near,
        (inr (omega arith), closer _ m.distance name cs (key_le-le (key_of name c) m e) rest),
      )
      | inr e ↦ rw e (inr there, other', exact, near', (inr (key_le-ge (key_of name c) m e), rest))
    ]

-- Among the candidates for a name, the least key is that of one other than the name, within the limit
-- of edits, than which no other is nearer; there is none where every other is farther than the limit.
least-Nearest :
    (limit : ℕ) (name : List ℕ) (cs : List (List ℕ))
    → Nearest limit name cs (least (near_keys limit name cs))
unfolding least near_keys
least-Nearest limit name [] = tt
least-Nearest limit name (c ∷ cs) =
    let ih = least-Nearest limit name cs in
    elim (Bool-cases (same_bytes c name)) [
      | inl e ↦ rw e (skip limit name c cs _ (inl e) ih)
      | inr e ↦ elim (Bool-cases (leb (distance_to name c) limit)) [
        | inl near ↦
            rw (e, near) (chosen limit name c cs _ e (leb→le (distance_to name c) limit near) ih)
        | inr far ↦ rw (e, far) (skip limit name c cs _ (inr (ground arith)) ih)
      ]
    ]

-- What a name suggested for `name` is to be.
abbrev pub Names : ℕ → List ℕ → List (List ℕ) → Option (List ℕ) → Type 0
Names limit name cs none = All (Far limit name) cs
Names limit name cs (some c) =
    In c cs
    × (same_bytes c name ≡ false)
    × (distance_to name c ≤ limit)
    × All (Farther (distance_to name c) name) cs

Nearest-Names :
    (limit : ℕ) (name : List ℕ) (cs : List (List ℕ)) (o : Option Key)
    → Nearest limit name cs o
    → Names limit name cs (elim o [ none ↦ none | some k ↦ some k.candidate ])
Nearest-Names limit name cs none h = h
Nearest-Names limit name cs (some k) (there, other, exact, near, rest) = (
  there,
  other,
  subst (λ d. d ≤ limit) exact near,
  subst (λ d. All (Farther d name) cs) exact rest,
)

-- For a name that is long enough for a suggestion, the candidate suggested is one other than the name,
-- within the edits allowed, than which no other is nearer; there is none where every candidate but the
-- name is farther than the edits allowed.
pub nearest_name-Names :
    (limit : ℕ) (name : List ℕ) (cs : List (List ℕ))
    → edits_allowed (length (squeeze name)) ≡ some limit
    → Names limit name cs (nearest_name name cs)
unfolding nearest_name
nearest_name-Names limit name cs h =
    rw (h, nearest_name, Names)
      (Nearest-Names limit name cs (least (near_keys limit name cs)) (least-Nearest limit name cs))
