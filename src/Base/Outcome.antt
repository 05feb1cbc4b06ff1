-- ===== src/Base/Outcome.antt =====
-- Rust's `Result`, with the error type first, and its `?` as the bind of a do block.
use mathlib.Core.Path.{◌≡◌, refl, subst}
use mathlib.Core.Bool.{Bool, true, false}
use mathlib.Core.Option.{Option, none, some}

pub data Result {ℓ} (E : Type 0) (A : Type ℓ) : Type ℓ where
  ok : A → Result E A
  err : E → Result E A

infixl 5 ◌>>=◌ ◌>>◌
abbrev pub ◌>>=◌ {ℓ κ} :
    {A : Type ℓ} {E : Type 0} {B : Type κ} → Result E A → (A → Result E B) → Result E B
ok value >>= rest = rest value
err reason >>= _ = err reason

abbrev pub ◌>>◌ {ℓ} : {B : Type ℓ} {E : Type 0} → Result E (Unit {0}) → Result E B → Result E B
test >> rest = test >>= λ _. rest

-- An early return of an error.
abbrev pub fail_if : {E : Type 0} → Bool → E → Result E (Unit {0})
fail_if true e = err e
fail_if false e = ok tt

abbrev pub ok_or {ℓ} : {E : Type 0} {A : Type ℓ} → Option A → E → Result E A
ok_or (some a) e = ok a
ok_or none e = err e

-- A postcondition of a result that there is.
abbrev pub Holds {ℓ κ} : {E : Type 0} {A : Type ℓ} → (A → Type κ) → Result E A → Type κ
Holds P (ok a) = P a
Holds P (err _) = Unit

pub Holds->>= {ℓ κ ι υ} :
    {E : Type 0} {A : Type ℓ} {B : Type κ} (P : A → Type ι) (Q : B → Type υ) (r : Result E A)
    (rest : A → Result E B)
    → Holds P r
    → ((a : A) → P a → Holds Q (rest a))
    → Holds Q (r >>= rest)
Holds->>= P Q (ok a) rest h k = k a h
Holds->>= P Q (err e) rest h k = tt

pub Holds-any {ℓ} : {E : Type 0} {A : Type ℓ} (r : Result E A) → Holds (λ _. Unit {0}) r
Holds-any (ok a) = tt
Holds-any (err e) = tt

-- A chain that succeeds has succeeded at its first step.
pub ok-of->>= {ℓ κ} :
    {E : Type 0} {A : Type ℓ} {B : Type κ} (r : Result E A) (rest : A → Result E B) {b : B}
    → (r >>= rest) ≡ ok b
    → (a : A) × (r ≡ ok a) × (rest a ≡ ok b)
ok-of->>= (ok a) rest e = (a, refl, e)
ok-of->>= (err x) rest e = cc

pub Holds-ok {ℓ κ} :
    {E : Type 0} {A : Type ℓ} (P : A → Type κ) {r : Result E A} {a : A} → Holds P r → r ≡ ok a → P a
Holds-ok P h e = subst (λ r. Holds P r) e h

-- What holds after each value that the first step may give holds after the chain.
pub Holds-step {ℓ κ ι} :
    {E : Type 0} {A : Type ℓ} {B : Type κ} (Q : B → Type ι) (r : Result E A) (rest : A → Result E B)
    → ((a : A) → r ≡ ok a → Holds Q (rest a))
    → Holds Q (r >>= rest)
Holds-step Q (ok a) rest h = h a refl
Holds-step Q (err e) rest h = tt
