-- ===== src/Scopes/Declared.antt =====
-- What a declaration and a use of src/scopes.rs do to a symbol and to the scopes.
use aipl.Base.{ℕ, ◌≡◌, refl, sym, subst, String, Option-cases, inl, inr, Bool-cases}
use aipl.Token.{Token}
use aipl.Sx.{Sx, Items, atom, list, nil, cons, kind_symbol, is_some_str, as_symbol}
use aipl.Scopes.{declare, use_symbol, visible, renamed, with_symbol, declare_new, declare_name}
use aipl.Scopes.Walk.{declare_binder, declare_binders}
use aipl.Scopes.Invariant.{
  Renames, RenamesAll, same, renames_symbol, renames_nil, renames_cons, Does, Keeps-self,
  Keeps-trans, declare_new-Keeps, IsSound-visible,
}

-- A declared or used name becomes one of its renamings.
declare_name-Does : (n : String) → Does (λ v. (k : ℕ) × (v ≡ renamed k n)) (declare_name n)
unfolding declare_name declare_new
declare_name-Does n s h = elim (Option-cases (visible s n)) [
  | inl e ↦ rw (e, declare_name) ((_, refl), declare_new-Keeps n s h e)
  | inr (v, e) ↦
      let (k, _, q) = IsSound-visible n v h e in rw (e, declare_name) ((k, q), Keeps-self s h)
]

pub declare-Does : (x : Sx) → Does (Renames x) (declare x)
unfolding declare
declare-Does (atom t) s h = elim (Option-cases (kind_symbol t.kind)) [
  | inl e ↦ rw e (same (atom t), Keeps-self s h)
  | inr (n, e) ↦
      let ((k, q), l) = declare_name-Does n s h in
      rw e (subst (λ v. Renames (atom t) (with_symbol t v)) (sym q) (renames_symbol t n k e), l)
]
declare-Does (list o xs c) s h = (same _, Keeps-self s h)

pub use_symbol-Does : (t : Token) → Does (Renames (atom t)) (use_symbol t (kind_symbol t.kind))
use_symbol-Does t s h = elim (Option-cases (kind_symbol t.kind)) [
  | inl e ↦ rw e (same (atom t), Keeps-self s h)
  | inr (n, e) ↦ elim (Option-cases (visible s n)) [
    | inl f ↦ rw e (rw (f, use_symbol) (same (atom t), Keeps-self s h))
    | inr (v, f) ↦
        let (k, _, q) = IsSound-visible n v h f in
        rw e (
          rw (f, use_symbol)
            (
              subst (λ v. Renames (atom t) (with_symbol t v)) (sym q) (renames_symbol t n k e),
              Keeps-self s h,
            ))
  ]
]

declare_binder-Does : (x : Sx) → Does (Renames x) (declare_binder x)
declare_binder-Does x s h = elim (Bool-cases (is_some_str (as_symbol x) "_")) [
  | inl e ↦ rw e (same x, Keeps-self s h)
  | inr e ↦ rw e (declare-Does x s h)
]

pub declare_binders-Does : (xs : Items) → Does (RenamesAll xs) (declare_binders xs)
unfolding declare_binders
declare_binders-Does nil s h = (renames_nil, Keeps-self s h)
declare_binders-Does (cons x xs) s h =
    let (r, k) = declare_binder-Does x s h in
    let (q, l) = declare_binders-Does xs (declare_binder x s).1 k.is_sound in
    (renames_cons _ _ _ _ r q, Keeps-trans k l)
