-- ===== src/Leaks/Least.antt =====
-- The analysis of src/leaks.rs, and the functions that may leak.
use aipl.Base.{
  ℕ, zero, suc, ◌+◌, ◌≤◌, ◌<◌, ◌≡◌, ◌↔◌, refl, String, Bool, true, false, none, some, List, [], ◌∷◌,
  str_eq, eq_iff, if◌then◌else◌, inl, inr, Option-cases, Bool-cases, arith, length, All, subst, sym,
}
use aipl.Base.Dict.{Dict, lookup, insert, has_key}
use aipl.Ast.Expr.{FnDef}
use aipl.Leaks.{Why, Sited}
use aipl.Leaks.Analysis.{
  analyse, all_sites, is_marked, reason, sites_in, visit, pass, passes, may_leak,
}
use aipl.Leaks.Spec.{
  MayLeak, by_use, by_call, Grounds, used, called, reason-Grounds, reason-none, is_fn,
  has_key-insert,
}

module _ (all : Dict (List Sited)) (marked : String → Bool) (fs : List FnDef) where
  abbrev AllLeak : Dict Why → Type 0
  AllLeak why = (n : String) → has_key n why ≡ true → MayLeak all marked fs n

  Grounds-MayLeak :
      (n : String) (why : Dict Why) (r : Why)
      → is_fn fs n ≡ true
      → marked n ≡ false
      → AllLeak why
      → Grounds (sites_in all n) why r
      → MayLeak all marked fs n
  Grounds-MayLeak n why _ i m h (used what _ _ s) = by_use n what i m s
  Grounds-MayLeak n why _ i m h (called g _ _ s k) = by_call n g i m s (h g k)

  insert-AllLeak :
      (n : String) (why : Dict Why) (r : Why)
      → AllLeak why
      → MayLeak all marked fs n
      → AllLeak (insert n r why)
  insert-AllLeak n why r l h j k = elim (Bool-cases (str_eq n j)) [
    | inl e ↦ subst (MayLeak all marked fs) (ground (arith, eq_iff n j)) h
    | inr e ↦ l j (ground (arith, has_key-insert n j r why))
  ]

  -- A turn either changes nothing and has no reason to, or adds the function.
  pub data Turn (n : String) : Dict Why × Bool → Dict Why × Bool → Type 0 where
    same :
        (why : Dict Why) (more : Bool)
        → (marked n ≡ false → has_key n why ≡ false → reason (sites_in all n) why ≡ none)
        → Turn n (why, more) (why, more)
    adds :
        (why : Dict Why) (more : Bool) (r : Why)
        → marked n ≡ false
        → has_key n why ≡ false
        → reason (sites_in all n) why ≡ some r
        → Turn n (why, more) (insert n r why, true)

  pub visit-Turn :
      (n : String) (why : Dict Why) (more : Bool)
      → Turn n (why, more) (visit all marked n (why, more))
  unfolding visit
  visit-Turn n why more = elim (Bool-cases (marked n)) [
    | inl m ↦ rw (m, visit) (same why more (λ m' _. ground (arith)))
    | inr m ↦ elim (Bool-cases (has_key n why)) [
      | inl k ↦ rw m (rw k (same why more (λ _ k'. ground arith)))
      | inr k ↦ elim (Option-cases (reason (sites_in all n) why)) [
        | inl e ↦ rw m (rw k (rw e (same why more (λ _ _. e))))
        | inr (r, e) ↦ rw m (rw k (rw e (adds why more r m k e)))
      ]
    ]
  ]

  -- How many functions are not yet known to leak.
  abbrev missing : List FnDef → Dict Why → ℕ
  missing [] why = 0
  missing (f ∷ gs) why = (if has_key f.name why then 0 else 1) + missing gs why

  missing-insert_le :
      (gs : List FnDef) (n : String) (r : Why) (why : Dict Why)
      → missing gs (insert n r why) ≤ missing gs why
  missing-insert_le [] n r why = omega arith
  missing-insert_le (f ∷ gs) n r why =
      ground (arith, has_key-insert n f.name r why, missing-insert_le gs n r why)

  missing-insert_lt :
      (gs : List FnDef) (n : String) (r : Why) (why : Dict Why)
      → is_fn gs n ≡ true
      → has_key n why ≡ false
      → missing gs (insert n r why) < missing gs why
  missing-insert_lt (f ∷ gs) n r why i k = elim (Bool-cases (str_eq f.name n)) [
    | inl e ↦ ground (
      arith,
      has_key-insert n f.name r why,
      missing-insert_le gs n r why,
      eq_iff f.name n,
      eq_iff n f.name,
    )
    | inr e ↦ ground (
      arith,
      has_key-insert n f.name r why,
      missing-insert_lt gs n r why (ground arith) k,
      eq_iff f.name n,
      eq_iff n f.name,
    )
  ]
  missing-insert_lt [] n r why i k = cc

  abbrev Settled : List FnDef → Dict Why → Type 0
  Settled gs why =
      All
        (λ f.
          marked f.name ≡ false
          → has_key f.name why ≡ false
          → reason (sites_in all f.name) why ≡ none)
        gs

  record PassDoes (gs : List FnDef) (why : Dict Why) (more : Bool) (round : Dict Why × Bool)
      : Type 0 where
    leaks : AllLeak why → AllLeak round.0
    fewer : missing fs round.0 ≤ missing fs why
    found : more ≡ false → round.1 ≡ true → missing fs round.0 < missing fs why
    settled : round.1 ≡ false → (more ≡ false) × ((round.0 ≡ why) × Settled gs why)

  pass-Turn :
      (f : FnDef) (gs : List FnDef) (why : Dict Why) (more : Bool) (next : Dict Why × Bool)
      (end : Dict Why × Bool)
      → is_fn fs f.name ≡ true
      → Turn f.name (why, more) next
      → PassDoes gs next.0 next.1 end
      → PassDoes (f ∷ gs) why more end
  pass-Turn f gs _ _ _ end i (same why more h) p = record {
    leaks = p.leaks;
    fewer = p.fewer;
    found = p.found;
    settled = λ e. let (a, (b, c)) = p.settled e in (a, (b, (h, c)));
  }
  pass-Turn f gs _ _ _ end i (adds why more r m k e) p = record {
    leaks = λ l. p.leaks (
        insert-AllLeak f.name why r l
          (Grounds-MayLeak f.name why r i m l (reason-Grounds _ why r e)));
    fewer = omega (arith, p.fewer, missing-insert_le fs f.name r why);
    found = λ _ _. omega (arith, p.fewer, missing-insert_lt fs f.name r why i k);
    settled = λ q. let (bad, _) = p.settled q in cc;
  }

  pass-PassDoes :
      (gs : List FnDef) (why : Dict Why) (more : Bool)
      → All (λ f. is_fn fs f.name ≡ true) gs
      → PassDoes gs why more (pass all marked gs (why, more))
  unfolding pass
  pass-PassDoes [] why more i = record {
    leaks = λ l. l;
    fewer = omega arith;
    found = λ a b. cc;
    settled = λ e. (e, (refl, tt));
  }
  pass-PassDoes (f ∷ gs) why more (i, is) =
      let t = visit-Turn f.name why more in
      pass-Turn f gs why more (visit all marked f.name (why, more)) _ i t (pass-PassDoes gs _ _ is)

  -- Enough passes end with one that finds nothing, and everything found does leak.
  record IsFixpoint (why : Dict Why) : Type 0 where
    pub found_leak : AllLeak why
    pub all_settled : Settled fs why

  passes-IsFixpoint :
      (n : ℕ) (why : Dict Why)
      → All (λ f. is_fn fs f.name ≡ true) fs
      → missing fs why < n
      → AllLeak why
      → IsFixpoint (passes n all marked fs why)
  unfolding passes
  passes-IsFixpoint zero why i h l = let bad : true ≡ false = ground arith in cc
  passes-IsFixpoint (suc n) why i h l =
      let d = pass-PassDoes fs why false i in
      elim (Bool-cases (pass all marked fs (why, false)).1) [
        | inl e ↦ rw e (
            passes-IsFixpoint n (pass all marked fs (why, false)).0 i
              (omega (arith, d.found refl e)) (d.leaks l))
        | inr e ↦
            let (_, (q, s)) = d.settled e in
            rw e (subst IsFixpoint (sym q) (record { found_leak = l; all_settled = s }))
      ]

  Settled-reason :
      (gs : List FnDef) (n : String) (why : Dict Why)
      → Settled gs why
      → is_fn gs n ≡ true
      → marked n ≡ false
      → has_key n why ≡ false
      → reason (sites_in all n) why ≡ none
  Settled-reason [] n why s i m k = cc
  Settled-reason (f ∷ gs) n why (h, s) i m k = elim (Bool-cases (str_eq f.name n)) [
    | inl e ↦
        let q : f.name ≡ n = ground (arith, eq_iff f.name n) in
        subst (λ j. marked j ≡ false → has_key j why ≡ false → reason (sites_in all j) why ≡ none) q
          h m k
    | inr e ↦ Settled-reason gs n why s (ground arith) m k
  ]

  -- A name that may leak is found by a settled analysis.
  pub MayLeak-found :
      (n : String) (why : Dict Why)
      → Settled fs why
      → MayLeak all marked fs n
      → has_key n why ≡ true
  MayLeak-found n why s (by_use _ what i m h) = elim (Bool-cases (has_key n why)) [
    | inl k ↦ k
    | inr k ↦ let bad = reason-none why h (Settled-reason fs n why s i m k) in cc
  ]
  MayLeak-found n why s (by_call _ g i m h l) =
      let k = MayLeak-found g why s l in
      elim (Bool-cases (has_key n why)) [
        | inl q ↦ q
        | inr q ↦ let bad = reason-none why h (Settled-reason fs n why s i m q) in ground arith
      ]

All-is_fn_cons :
    (f : FnDef) (fs gs : List FnDef)
    → All (λ g. is_fn fs g.name ≡ true) gs
    → All (λ g. is_fn (f ∷ fs) g.name ≡ true) gs
All-is_fn_cons f fs [] h = tt
All-is_fn_cons f fs (g ∷ gs) (h, hs) = (ground arith, All-is_fn_cons f fs gs hs)

All-is_fn : (fs : List FnDef) → All (λ f. is_fn fs f.name ≡ true) fs
All-is_fn [] = tt
All-is_fn (f ∷ fs) = (ground (arith, eq_iff f.name f.name), All-is_fn_cons f fs fs (All-is_fn fs))

missing-le_length :
    (all : Dict (List Sited)) (marked : String → Bool) (hs fs : List FnDef) (why : Dict Why)
    → missing all marked hs fs why ≤ length fs
missing-le_length all marked hs [] why = omega arith
missing-le_length all marked hs (f ∷ fs) why =
    ground (arith, missing-le_length all marked hs fs why)

analyse-IsFixpoint :
    (fs : List FnDef) → IsFixpoint (analyse fs).all (is_marked fs) fs (analyse fs).why
unfolding analyse lookup
analyse-IsFixpoint fs =
    passes-IsFixpoint (all_sites fs []) (is_marked fs) fs (suc (length fs)) [] (All-is_fn fs)
      (omega (arith, missing-le_length (all_sites fs []) (is_marked fs) fs fs [])) (λ n h. cc)

-- The passes of an analysis, one more than there are functions, find exactly the functions that may leak:
-- those without a promise that allocate for ever or call, through any number of such functions, one
-- that does.
pub may_leak_iff :
    (fs : List FnDef) (n : String)
    → (may_leak (analyse fs) n ≡ true) ↔ MayLeak (analyse fs).all (is_marked fs) fs n
may_leak_iff fs n =
    let p = analyse-IsFixpoint fs in
    (
      p.found_leak n,
      MayLeak-found (analyse fs).all (is_marked fs) fs n (analyse fs).why p.all_settled,
    )
