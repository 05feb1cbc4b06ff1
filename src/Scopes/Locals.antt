-- ===== src/Scopes/Locals.antt =====
-- The renaming of a function's locals: `rename_locals` of src/scopes.rs.
use aipl.Base.{String, Option, none, some, List, [], ◌∷◌}
use aipl.Base.Dict.{insert}
use aipl.Sx.{Sx, atom, list, cons, as_symbol, items}
use aipl.Scopes.{Scopes, insert_top}
use aipl.Scopes.Walk.{walk, walk_items}

-- `step_by(3)`: the parameters stand three by three, name, colon, type.
unfoldable pub every_third : List Sx → List Sx
every_third [] = []
every_third (x ∷ []) = x ∷ []
every_third (x ∷ _ ∷ []) = x ∷ []
every_third (x ∷ _ ∷ _ ∷ rest) = x ∷ every_third rest

abbrev pub declare_param : Option String → Scopes → Scopes
declare_param none s = s
declare_param (some n) s = record { seen = insert n 1 s.seen; stack = insert_top n n s.stack }

unfoldable pub declare_params : List Sx → Scopes → Scopes
declare_params [] s = s
declare_params (p ∷ ps) s = declare_params ps (declare_param (as_symbol p) s)

abbrev pub empty_scopes : Scopes
empty_scopes = record { seen = []; stack = [] ∷ [] }

-- `(fn name [params] -> R body...)`: a function of fewer than five items is left alone.
unfoldable pub rename_locals : Sx → Sx
unfolding walk declare_params every_third
rename_locals (atom t) = atom t
rename_locals (list o (cons a (cons b (cons params (cons d (cons e body))))) c) =
    let s = declare_params (every_third (items params)) empty_scopes in
    list o (cons a (cons b (cons params (cons d (cons e (walk_items body s).0))))) c
rename_locals (list o xs c) = list o xs c
