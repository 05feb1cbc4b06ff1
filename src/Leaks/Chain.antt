-- ===== src/Leaks/Chain.antt =====
-- The reasons that the analysis of src/leaks.rs keeps, and the chain of calls that a message shows.
use aipl.Base.{
  ℕ, zero, suc, ◌≤◌, ◌≡◌, refl, String, Bool, true, false, some, List, [], ◌∷◌, str_eq, eq_iff, inl,
  inr, Bool-cases, arith, length, subst,
}
use aipl.Base.Dict.{Dict, lookup, insert, has_key, lookup-insert}
use aipl.Ast.Expr.{FnDef}
use aipl.Leaks.{Why, Sited, uses, calls}
use aipl.Leaks.Analysis.{
  analyse, all_sites, is_marked, sites_in, visit, pass, passes, may_leak, chain_parts, chain,
}
use aipl.Leaks.Spec.{Grounds, used, called, reason-Grounds, has_key-insert}
use aipl.Leaks.Least.{Turn, same, adds, visit-Turn}

-- From a function down to an allocation.
pub data Chain (why : Dict Why) : String → List (String × Why) → Type 0 where
  ends : (n what : String) → lookup n why ≡ some (uses what) → Chain why n ((n, uses what) ∷ [])
  goes :
      (n g : String) (parts : List (String × Why))
      → lookup n why ≡ some (calls g)
      → Chain why g parts
      → Chain why n ((n, calls g) ∷ parts)

abbrev HasChain : Dict Why → ℕ → String → Type 0
HasChain why k n = (parts : List (String × Why)) × (Chain why n parts × (length parts ≤ k))

abbrev Chained : Dict Why → Type 0
Chained why = (n : String) → has_key n why ≡ true → HasChain why (length why) n

insert-Chain :
    (k : String) (r : Why) {why : Dict Why} {n : String} {parts : List (String × Why)}
    → has_key k why ≡ false
    → Chain why n parts
    → Chain (insert k r why) n parts
insert-Chain k r {why = why} h (ends n what e) =
    ends n what (ground (arith, lookup-insert k n r why, eq_iff k n))
insert-Chain k r {why = why} h (goes n g parts e c) =
    goes n g parts (ground (arith, lookup-insert k n r why, eq_iff k n)) (insert-Chain k r h c)

length-insert :
    (k : String) (r : Why) (why : Dict Why)
    → has_key k why ≡ false
    → length (insert k r why) ≡ suc (length why)
unfolding insert lookup
length-insert k r [] h = refl
length-insert k r ((j, w) ∷ why) h = elim (Bool-cases (str_eq j k)) [
  | inl e ↦ ground arith
  | inr e ↦ ground (arith, length-insert k r why (ground arith))
]

added-HasChain :
    (n : String) (ss : List Sited) (why : Dict Why) (r : Why)
    → has_key n why ≡ false
    → Grounds ss why r
    → Chained why
    → HasChain (insert n r why) (length (insert n r why)) n
added-HasChain n ss why _ k (used what _ _ s) c = (
  (n, uses what) ∷ [],
  (
    ends n what (ground (arith, lookup-insert n n (uses what) why, eq_iff n n)),
    omega (arith, length-insert n (uses what) why k),
  ),
)
added-HasChain n ss why _ k (called g _ _ s h) c =
    let (parts, (p, l)) = c g h in
    (
      (n, calls g) ∷ parts,
      (
        goes n g parts (ground (arith, lookup-insert n n (calls g) why, eq_iff n n))
            (insert-Chain n (calls g) k p),
        omega (arith, length-insert n (calls g) why k, l),
      ),
    )

insert-Chained :
    (n : String) (ss : List Sited) (why : Dict Why) (r : Why)
    → has_key n why ≡ false
    → Grounds ss why r
    → Chained why
    → Chained (insert n r why)
insert-Chained n ss why r k g c j h = elim (Bool-cases (str_eq n j)) [
  | inl e ↦
      subst (HasChain (insert n r why) (length (insert n r why))) (ground (arith, eq_iff n j))
        (added-HasChain n ss why r k g c)
  | inr e ↦
      let (parts, (p, l)) = c j (ground (arith, has_key-insert n j r why)) in
      (parts, (insert-Chain n r k p, omega (arith, length-insert n r why k, l)))
]

visit-Chained :
    (all : Dict (List Sited)) (marked : String → Bool) (fs : List FnDef) (n : String)
    (a b : Dict Why × Bool)
    → Turn all marked fs n a b
    → Chained a.0
    → Chained b.0
visit-Chained all marked fs n _ _ (same why more h) c = c
visit-Chained all marked fs n _ _ (adds why more r m k e) c =
    insert-Chained n (sites_in all n) why r k (reason-Grounds (sites_in all n) why r e) c

pass-Chained :
    (all : Dict (List Sited)) (marked : String → Bool) (fs : List FnDef) (a : Dict Why × Bool)
    → Chained a.0
    → Chained (pass all marked fs a).0
unfolding pass
pass-Chained all marked [] a c = c
pass-Chained all marked (f ∷ fs) (why, more) c =
    pass-Chained all marked fs (visit all marked f.name (why, more)) (
      visit-Chained all marked fs f.name (why, more) (visit all marked f.name (why, more))
        (visit-Turn all marked fs f.name why more) c)

passes-Chained :
    (n : ℕ) (all : Dict (List Sited)) (marked : String → Bool) (fs : List FnDef) (why : Dict Why)
    → Chained why
    → Chained (passes n all marked fs why)
unfolding passes
passes-Chained zero all marked fs why c = c
passes-Chained (suc n) all marked fs why c =
    let d = pass-Chained all marked fs (why, false) c in
    elim (Bool-cases (pass all marked fs (why, false)).1) [
      | inl e ↦ rw e (passes-Chained n all marked fs (pass all marked fs (why, false)).0 d)
      | inr e ↦ rw e d
    ]

chain_parts-Chain :
    (k : ℕ) (why : Dict Why) (n : String) (parts : List (String × Why))
    → Chain why n parts
    → length parts ≤ k
    → chain_parts k why n ≡ some parts
unfolding chain_parts
chain_parts-Chain zero why n _ (ends _ what e) h = ground arith
chain_parts-Chain zero why n _ (goes _ g parts e c) h = ground arith
chain_parts-Chain (suc k) why n _ (ends _ what e) h = rw (e, chain_parts) refl
chain_parts-Chain (suc k) why n _ (goes _ g parts e c) h =
    rw (e, chain_parts) (rw (chain_parts-Chain k why g parts c (omega (arith, h))) refl)

-- The chain of a function that may leak ends, at an allocation, and each part of it is the reason
-- kept for its function.
pub chain-Chain :
    (fs : List FnDef) (n : String)
    → may_leak (analyse fs) n ≡ true
    → (parts : List (String × Why)) × ((chain (analyse fs) n ≡ some parts)
        × Chain (analyse fs).why n parts)
unfolding analyse chain lookup
chain-Chain fs n h =
    let why = passes (suc (length fs)) (all_sites fs []) (is_marked fs) fs [] in
    let (parts, (c, l)) =
      passes-Chained (suc (length fs)) (all_sites fs []) (is_marked fs) fs [] (λ n h. cc) n h in
    (parts, (chain_parts-Chain (suc (length why)) why n parts c (omega (arith, l)), c))
