-- ===== src/Prelude/Outcome.antt =====
-- How a C call of this code ends: it returns a value, it returns NULL or -1, or an `assert` fails
-- and the process stops.

pub data Outcome {ℓ} (A : Type ℓ) : Type ℓ where
  ok : A → Outcome A
  failed : Outcome A
  aborted : Outcome A

infixl 5 ◌>>=◌
abbrev pub ◌>>=◌ {ℓ κ} : {A : Type ℓ} {B : Type κ} → Outcome A → (A → Outcome B) → Outcome B
ok a >>= f = f a
failed >>= f = failed
aborted >>= f = aborted

-- The call returns a value, and the value satisfies `P`.
abbrev pub Returns {ℓ} : {A : Type ℓ} → (A → Type 0) → Outcome A → Type 0
Returns P (ok a) = P a
Returns P failed = ⊥
Returns P aborted = ⊥

-- If the call returns a value, the value satisfies `P`.
abbrev pub Keeps {ℓ} : {A : Type ℓ} → (A → Type 0) → Outcome A → Type 0
Keeps P (ok a) = P a
Keeps P failed = Unit {0}
Keeps P aborted = Unit {0}

pub Keeps-bind {ℓ κ} :
    {A : Type ℓ} {B : Type κ} (P : A → Type 0) (Q : B → Type 0) (m : Outcome A) (f : A → Outcome B)
    → Keeps P m
    → ((a : A) → P a → Keeps Q (f a))
    → Keeps Q (m >>= f)
Keeps-bind P Q (ok a) f h g = g a h
Keeps-bind P Q failed f h g = tt
Keeps-bind P Q aborted f h g = tt

pub Keeps-mono {ℓ} :
    {A : Type ℓ} (P Q : A → Type 0) (m : Outcome A) → ((a : A) → P a → Q a) → Keeps P m → Keeps Q m
Keeps-mono P Q (ok a) f h = f a h
Keeps-mono P Q failed f h = tt
Keeps-mono P Q aborted f h = tt

pub Returns-bind {ℓ κ} :
    {A : Type ℓ} {B : Type κ} (P : A → Type 0) (Q : B → Type 0) (m : Outcome A) (f : A → Outcome B)
    → Returns P m
    → ((a : A) → P a → Returns Q (f a))
    → Returns Q (m >>= f)
Returns-bind P Q (ok a) f h g = g a h
Returns-bind P Q failed f h g = absurd h
Returns-bind P Q aborted f h g = absurd h

pub Returns-mono {ℓ} :
    {A : Type ℓ} (P Q : A → Type 0) (m : Outcome A)
    → ((a : A) → P a → Q a)
    → Returns P m
    → Returns Q m
Returns-mono P Q (ok a) f h = f a h
Returns-mono P Q failed f h = absurd h
Returns-mono P Q aborted f h = absurd h
