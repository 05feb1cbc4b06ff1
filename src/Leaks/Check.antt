-- ===== src/Leaks/Check.antt =====
-- The errors of the functions that promise to keep no memory, and their texts: `check` and the text of
-- `Analysis::chain` of src/leaks.rs.
use Prim.Native.String.{◌++◌}
use aipl.Base.{
  String, Bool, true, ◌&&◌, not, Option, none, some, List, [], ◌∷◌, map, str_eq, if◌then◌else◌,
}
use aipl.Text.Decimal.{decimal}
use aipl.Ast.Expr.{FnDef}
use aipl.Leaks.{Why, Sited, leak, calls_fn, uses, calls, through}
use aipl.Leaks.Analysis.{Analysis, analyse, sites_in, may_leak, chain}

abbrev pub part_text : String × Why → String
part_text (at, uses what) = at ++ (" uses " ++ what)
part_text (at, calls g) = at ++ (" calls " ++ g)

abbrev pub join : String → List String → String
join sep [] = ""
join sep (s ∷ []) = s
join sep (s ∷ t ∷ more) = s ++ (sep ++ join sep (t ∷ more))

abbrev pub chain_text : Analysis → String → String
chain_text a start = elim (chain a start) [
  | none ↦ ""
  | some parts ↦ join "; " (map part_text parts)
]

abbrev pub site_text : Analysis → Sited → String
site_text a s = elim s.site [
  | leak what ↦
      if str_eq what through
      then "uses "
        ++ (what
            ++ ", which may keep memory (a signature with (no_leak) takes only functions that keep none)")
      else "uses " ++ (what ++ ", whose memory is never freed")
  | calls_fn g ↦
      "calls "
      ++ (g ++ (", which may make memory that is never freed (" ++ (chain_text a g ++ ")")))
]

-- `L:C: f is marked (no_leak) but ...`
abbrev pub error_text : Analysis → String → Sited → String
error_text a name s =
    let (l, c) = s.at in
    decimal l
    ++ (":" ++ (decimal c ++ (": " ++ (name ++ (" is marked (no_leak) but " ++ site_text a s)))))

-- A site outside unsafe that leaks, or that calls a function that may.
abbrev pub offends : Analysis → Sited → Bool
offends a s = not s.in_unsafe && elim s.site [ leak _ ↦ true | calls_fn g ↦ may_leak a g ]

unfoldable pub first_offence : Analysis → List Sited → Option Sited
first_offence a [] = none
first_offence a (s ∷ ss) = let later = first_offence a ss in if offends a s then some s else later

unfoldable pub check_fns : Analysis → List FnDef → List (String × String)
unfolding first_offence
check_fns a [] = []
check_fns a (f ∷ fs) =
    let rest = check_fns a fs in
    if f.is_no_leak
    then elim (first_offence a (sites_in a.all f.name)) [
      | none ↦ rest
      | some s ↦ (f.name, error_text a f.name s) ∷ rest
    ]
    else rest

-- The functions marked (no_leak) that may leak, each with the error at its first offending site.
unfoldable pub check : List FnDef → List (String × String)
unfolding analyse check_fns
check fs = check_fns (analyse fs) fs
