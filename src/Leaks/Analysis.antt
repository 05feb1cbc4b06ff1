-- ===== src/Leaks/Analysis.antt =====
-- Which functions may leak, and why, to a fixed point; and the errors of the functions that promise
-- not to: `Analysis` and `check` of src/leaks.rs. The passes are on fuel, and an analysis has one more
-- pass than the module has functions.
use aipl.Base.{
  ℕ, zero, suc, String, Bool, true, false, ◌&&◌, ◌||◌, Option, none, some, List, [], ◌∷◌, length,
  any, str_eq, if◌then◌else◌,
}
use aipl.Base.Dict.{Dict, lookup, insert, has_key}
use aipl.Ast.Expr.{FnDef}
use aipl.Leaks.{Why, Site, Sited, leak, calls_fn, uses, calls, sites}

-- The sites by function, a later definition in place of an earlier one.
unfoldable pub all_sites : List FnDef → Dict (List Sited) → Dict (List Sited)
unfolding sites
all_sites [] all = all
all_sites (f ∷ fs) all = all_sites fs (insert f.name (sites f) all)

unfoldable pub is_marked : List FnDef → String → Bool
is_marked fs n = any (λ f. f.is_no_leak && str_eq f.name n) fs

abbrev pub reason_of : Site → Dict Why → Option Why
reason_of (leak what) why = some (uses what)
reason_of (calls_fn g) why = if has_key g why then some (calls g) else none

-- The first site that leaks by what is known so far.
unfoldable pub reason : List Sited → Dict Why → Option Why
reason [] why = none
reason (s ∷ ss) why =
    let later = reason ss why in elim (reason_of s.site why) [ some r ↦ some r | none ↦ later ]

abbrev pub sites_in : Dict (List Sited) → String → List Sited
sites_in all n = elim (lookup n all) [ some ss ↦ ss | none ↦ [] ]

-- One function's turn in a pass; the flag says that the pass found more.
unfoldable pub visit :
    Dict (List Sited) → (String → Bool) → String → Dict Why × Bool → Dict Why × Bool
unfolding reason
visit all marked n (why, more) =
    if marked n || has_key n why
    then (why, more)
    else elim (reason (sites_in all n) why) [ some r ↦ (insert n r why, true) | none ↦ (why, more) ]

-- One pass over the functions.
unfoldable pub pass :
    Dict (List Sited) → (String → Bool) → List FnDef → Dict Why × Bool → Dict Why × Bool
unfolding visit
pass all marked [] round = round
pass all marked (f ∷ fs) round = pass all marked fs (visit all marked f.name round)

-- Passes until one finds nothing.
unfoldable pub passes : ℕ → Dict (List Sited) → (String → Bool) → List FnDef → Dict Why → Dict Why
unfolding pass
passes zero all marked fs why = why
passes (suc n) all marked fs why =
    let (why', more) = pass all marked fs (why, false) in
    let rest = passes n all marked fs why' in if more then rest else why'

pub record Analysis : Type 0 where
  pub all : Dict (List Sited)
  pub why : Dict Why

-- `Analysis::new`.
unfoldable pub analyse : List FnDef → Analysis
unfolding passes all_sites is_marked
analyse fs =
    let all = all_sites fs [] in
    record { all = all; why = passes (suc (length fs)) all (is_marked fs) fs [] }

abbrev pub may_leak : Analysis → String → Bool
may_leak a n = has_key n a.why

-- `chain`, its parts before they are joined, on fuel.
unfoldable pub chain_parts : ℕ → Dict Why → String → Option (List (String × Why))
chain_parts zero why at = none
chain_parts (suc n) why at = elim (lookup at why) [
  | none ↦ some []
  | some (uses what) ↦ some ((at, uses what) ∷ [])
  | some (calls g) ↦ elim (chain_parts n why g) [
    | none ↦ none
    | some parts ↦ some ((at, calls g) ∷ parts)
  ]
]

-- The chain from `start` down to the allocation: no longer than the functions that may leak.
unfoldable pub chain : Analysis → String → Option (List (String × Why))
unfolding chain_parts
chain a start = chain_parts (suc (length a.why)) a.why start
