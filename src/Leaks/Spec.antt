-- ===== src/Leaks/Spec.antt =====
-- What it means that a function may leak, and how one turn of the analysis of src/leaks.rs answers it.
use aipl.Base.{
  ◌≡◌, String, Bool, true, false, ◌||◌, none, some, List, [], ◌∷◌, any, str_eq, inl, inr,
  Option-cases, arith, Bool-cases, subst,
}
use aipl.Base.Dict.{Dict, insert, has_key, lookup-insert}
use aipl.Ast.Expr.{FnDef}
use aipl.Leaks.{Why, Site, Sited, leak, calls_fn, uses, calls}
use aipl.Leaks.Analysis.{reason, reason_of, sites_in}

pub data HasSite : Site → List Sited → Type 0 where
  here : (s : Sited) (ss : List Sited) → HasSite s.site (s ∷ ss)
  there : (x : Site) (s : Sited) (ss : List Sited) → HasSite x ss → HasSite x (s ∷ ss)

abbrev pub is_fn : List FnDef → String → Bool
is_fn fs n = any (λ f. str_eq f.name n) fs

-- A function that has made no promise leaks by an allocation or by a call of one that may leak.
module _ (all : Dict (List Sited)) (marked : String → Bool) (fs : List FnDef) where
  pub data MayLeak : String → Type 0 where
    by_use :
        (n what : String)
        → is_fn fs n ≡ true
        → marked n ≡ false
        → HasSite (leak what) (sites_in all n)
        → MayLeak n
    by_call :
        (n g : String)
        → is_fn fs n ≡ true
        → marked n ≡ false
        → HasSite (calls_fn g) (sites_in all n)
        → MayLeak g
        → MayLeak n

-- What a reason rests on.
pub data Grounds : List Sited → Dict Why → Why → Type 0 where
  used :
      (what : String) (ss : List Sited) (why : Dict Why)
      → HasSite (leak what) ss
      → Grounds ss why (uses what)
  called :
      (g : String) (ss : List Sited) (why : Dict Why)
      → HasSite (calls_fn g) ss
      → has_key g why ≡ true
      → Grounds ss why (calls g)

later-Grounds :
    (s : Sited) {ss : List Sited} {why : Dict Why} {r : Why}
    → Grounds ss why r
    → Grounds (s ∷ ss) why r
later-Grounds s (used what ss why h) = used what _ why (there _ s ss h)
later-Grounds s (called g ss why h k) = called g _ why (there _ s ss h) k

reason_of-Grounds :
    (x : Site) (ss : List Sited) (why : Dict Why) (r : Why)
    → HasSite x ss
    → reason_of x why ≡ some r
    → Grounds ss why r
reason_of-Grounds (leak what) ss why r h e = subst (Grounds ss why) (cc) (used what ss why h)
reason_of-Grounds (calls_fn g) ss why r h e = elim (Bool-cases (has_key g why)) [
  | inl k ↦ subst (Grounds ss why) (ground arith) (called g ss why h k)
  | inr k ↦ let bad : none ≡ some r = ground arith in cc
]

pub reason-Grounds :
    (ss : List Sited) (why : Dict Why) (r : Why) → reason ss why ≡ some r → Grounds ss why r
unfolding reason
reason-Grounds [] why r e = cc
reason-Grounds (s ∷ ss) why r e = elim (Option-cases (reason_of s.site why)) [
  | inl q ↦ later-Grounds s (reason-Grounds ss why r (ground arith))
  | inr (w, q) ↦ reason_of-Grounds s.site (s ∷ ss) why r (here s ss) (ground arith)
]

pub reason-none :
    {x : Site} {ss : List Sited} (why : Dict Why)
    → HasSite x ss
    → reason ss why ≡ none
    → reason_of x why ≡ none
unfolding reason
reason-none why (here s ss) e = ground arith
reason-none why (there x s ss h) e = reason-none why h (ground arith)

pub has_key-insert :
    {V : Type 0} (k n : String) (v : V) (m : Dict V)
    → has_key n (insert k v m) ≡ (str_eq k n || has_key n m)
has_key-insert k n v m = ground (arith, lookup-insert k n v m)
