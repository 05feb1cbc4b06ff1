-- ===== src/Leaks/Promise.antt =====
-- What `check` of src/leaks.rs lets pass.
use aipl.Base.{
  ◌≡◌, ◌↔◌, refl, String, Bool, true, false, none, List, [], ◌∷◌, inl, inr, Bool-cases, arith, All,
  not, ◌&&◌,
}
use aipl.Ast.Expr.{FnDef}
use aipl.Leaks.{Site, Sited, leak, calls_fn}
use aipl.Leaks.Analysis.{analyse, is_marked, sites_in, may_leak}
use aipl.Leaks.Spec.{MayLeak}
use aipl.Leaks.Check.{offends, first_offence, check_fns, check}
use aipl.Leaks.Least.{may_leak_iff}

-- A call of a function that does not leak.
pub data Harmless (fs : List FnDef) : Site → Type 0 where
  calls_harmless :
      (g : String) → ¬ MayLeak (analyse fs).all (is_marked fs) fs g → Harmless fs (calls_fn g)

abbrev pub KeepsPromise : List FnDef → FnDef → Type 0
KeepsPromise fs f =
    f.is_no_leak ≡ true
    → All (λ s. s.in_unsafe ≡ false → Harmless fs s.site) (sites_in (analyse fs).all f.name)

abbrev leaks_here : List FnDef → Site → Bool
leaks_here fs (leak _) = true
leaks_here fs (calls_fn g) = may_leak (analyse fs) g

Harmless-leaks_here : (fs : List FnDef) (x : Site) → leaks_here fs x ≡ false → Harmless fs x
Harmless-leaks_here fs (leak what) h = cc
Harmless-leaks_here fs (calls_fn g) h =
    calls_harmless g (λ l. let k = (may_leak_iff fs g).1 l in ground arith)

leaks_here-Harmless : (fs : List FnDef) (x : Site) → Harmless fs x → leaks_here fs x ≡ false
leaks_here-Harmless fs _ (calls_harmless g n) = elim (Bool-cases (may_leak (analyse fs) g)) [
  | inl k ↦ elim (n ((may_leak_iff fs g).0 k)) [ ]
  | inr k ↦ k
]

offends-eq :
    (fs : List FnDef) (s : Sited)
    → offends (analyse fs) s ≡ (not s.in_unsafe && leaks_here fs s.site)
offends-eq fs s =
    elim s.site
      as (λ x.
        (not s.in_unsafe && elim x [ leak _ ↦ true | calls_fn g ↦ may_leak (analyse fs) g ])
        ≡ (not s.in_unsafe && leaks_here fs x)) [ leak _ ↦ refl | calls_fn g ↦ refl ]

Harmless-offends :
    (fs : List FnDef) (s : Sited)
    → offends (analyse fs) s ≡ false
    → s.in_unsafe ≡ false
    → Harmless fs s.site
Harmless-offends fs s h u = let q = offends-eq fs s in Harmless-leaks_here fs s.site (ground arith)

offends-Harmless :
    (fs : List FnDef) (s : Sited)
    → (s.in_unsafe ≡ false → Harmless fs s.site)
    → offends (analyse fs) s ≡ false
offends-Harmless fs s h = elim (Bool-cases s.in_unsafe) [
  | inl u ↦ ground arith
  | inr u ↦ let q = leaks_here-Harmless fs s.site (h u) in let r = offends-eq fs s in ground arith
]

first_offence-Harmless :
    (fs : List FnDef) (ss : List Sited)
    → (first_offence (analyse fs) ss ≡ none)
      ↔ All (λ s. s.in_unsafe ≡ false → Harmless fs s.site) ss
unfolding first_offence
first_offence-Harmless fs [] = (λ _. tt, λ _. refl)
first_offence-Harmless fs (s ∷ ss) =
    let (to, from) = first_offence-Harmless fs ss in
    (
      λ e. (Harmless-offends fs s (ground arith), to (ground arith)),
      λ (h, hs). let q = offends-Harmless fs s h in let r = from hs in ground arith,
    )

check_fns-promises :
    (fs gs : List FnDef) → (check_fns (analyse fs) gs ≡ []) ↔ All (KeepsPromise fs) gs
unfolding check_fns
check_fns-promises fs [] = (λ _. tt, λ _. refl)
check_fns-promises fs (f ∷ gs) =
    let (to, from) = check_fns-promises fs gs in
    let (t, u) = first_offence-Harmless fs (sites_in (analyse fs).all f.name) in
    (
      λ e. (λ m. t (ground arith), to (ground arith)),
      λ (h, hs). elim (Bool-cases f.is_no_leak) [
        | inl m ↦ let q = u (h m) in let r = from hs in ground arith
        | inr m ↦ let r = from hs in ground arith
      ],
    )

-- A module passes without an error exactly when each of its functions marked (no_leak) does nothing,
-- outside unsafe, that leaks: no allocation that is never freed, and no call of a function that may leak.
pub check-eq-nil_iff : (fs : List FnDef) → (check fs ≡ []) ↔ All (KeepsPromise fs) fs
unfolding check
check-eq-nil_iff fs = check_fns-promises fs fs
