-- ===== src/Prelude/Ending.antt =====
-- How a call ends: it returns, or the process ends in it.
use mathlib.Core.Path.{◌≡◌, refl, subst}

pub data Stop : Type 0 where
  -- `exit(1)`, a failed `assert`, behaviour that C++ leaves undefined, and a loop of the model that
  -- runs out of its fuel.
  exit_failure assert_failed undefined out_of_fuel : Stop

pub data Outcome {ℓ} (A : Type ℓ) : Type ℓ where
  ok : A → Outcome A
  stop : Stop → Outcome A

infixl 5 ◌>>=◌
abbrev pub ◌>>=◌ {ℓ κ} : {A : Type ℓ} {B : Type κ} → Outcome A → (A → Outcome B) → Outcome B
ok a >>= f = f a
stop s >>= f = stop s

-- Total correctness up to `exit(1)`: the call returns a value with `P`, or the process exits; no
-- assertion fails and nothing undefined happens.
abbrev pub Returns : {A : Type 0} → Outcome A → (A → Type 0) → Type 0
Returns (ok a) P = P a
Returns (stop exit_failure) P = Unit {0}
Returns (stop assert_failed) P = ⊥
Returns (stop undefined) P = ⊥
Returns (stop out_of_fuel) P = ⊥

-- What follows knows the call.
pub Returns-bind_eq :
    {A B : Type 0} (m : Outcome A) (f : A → Outcome B) (P : A → Type 0) (Q : B → Type 0)
    → Returns m P
    → ((a : A) → m ≡ ok a → P a → Returns (f a) Q)
    → Returns (m >>= f) Q
Returns-bind_eq (ok a) f P Q h k = k a refl h
Returns-bind_eq (stop exit_failure) f P Q h k = tt
Returns-bind_eq (stop assert_failed) f P Q h k = elim h [ ]
Returns-bind_eq (stop undefined) f P Q h k = elim h [ ]
Returns-bind_eq (stop out_of_fuel) f P Q h k = elim h [ ]

pub Returns-bind :
    {A B : Type 0} (m : Outcome A) (f : A → Outcome B) (P : A → Type 0) (Q : B → Type 0)
    → Returns m P
    → ((a : A) → P a → Returns (f a) Q)
    → Returns (m >>= f) Q
Returns-bind m f P Q h k = Returns-bind_eq m f P Q h λ a e. k a

-- A postcondition may be weakened.
pub Returns-mono :
    {A : Type 0} (m : Outcome A) (P Q : A → Type 0)
    → Returns m P
    → ((a : A) → P a → Q a)
    → Returns m Q
Returns-mono (ok a) P Q h k = k a h
Returns-mono (stop exit_failure) P Q h k = tt
Returns-mono (stop assert_failed) P Q h k = elim h [ ]
Returns-mono (stop undefined) P Q h k = elim h [ ]
Returns-mono (stop out_of_fuel) P Q h k = elim h [ ]

-- What holds of a call that returned.
pub Returns-ok :
    {A : Type 0} (m : Outcome A) (P : A → Type 0) (a : A) → Returns m P → m ≡ ok a → P a
Returns-ok (ok b) P a h e = let same : b ≡ a = cc in subst P same h
Returns-ok (stop s) P a h e = absurd (cc)

-- Total correctness: the call returns a value with `P`.
abbrev pub Yields : {A : Type 0} → Outcome A → (A → Type 0) → Type 0
Yields (ok a) P = P a
Yields (stop s) P = ⊥

pub Yields-bind :
    {A B : Type 0} (m : Outcome A) (f : A → Outcome B) (P : A → Type 0) (Q : B → Type 0)
    → Yields m P
    → ((a : A) → P a → Yields (f a) Q)
    → Yields (m >>= f) Q
Yields-bind (ok a) f P Q h k = k a h
Yields-bind (stop s) f P Q h k = elim h [ ]

pub Yields-mono :
    {A : Type 0} (m : Outcome A) (P Q : A → Type 0)
    → Yields m P
    → ((a : A) → P a → Q a)
    → Yields m Q
Yields-mono (ok a) P Q h k = k a h
Yields-mono (stop s) P Q h k = elim h [ ]

pub Yields-ok : {A : Type 0} (m : Outcome A) (P : A → Type 0) (a : A) → Yields m P → m ≡ ok a → P a
Yields-ok (ok b) P a h e = let same : b ≡ a = cc in subst P same h
Yields-ok (stop s) P a h e = absurd (cc)

pub Yields-Returns : {A : Type 0} (m : Outcome A) (P : A → Type 0) → Yields m P → Returns m P
Yields-Returns (ok a) P h = h
Yields-Returns (stop s) P h = elim h [ ]

-- The process does not exit in the call, and what it returns, if it does, has `P`.
abbrev pub Spares : {A : Type 0} → Outcome A → (A → Type 0) → Type 0
Spares (ok a) P = P a
Spares (stop exit_failure) P = ⊥
Spares (stop assert_failed) P = Unit {0}
Spares (stop undefined) P = Unit {0}
Spares (stop out_of_fuel) P = Unit {0}

pub Spares-bind :
    {A B : Type 0} (m : Outcome A) (f : A → Outcome B) (P : A → Type 0) (Q : B → Type 0)
    → Spares m P
    → ((a : A) → P a → Spares (f a) Q)
    → Spares (m >>= f) Q
Spares-bind (ok a) f P Q h k = k a h
Spares-bind (stop exit_failure) f P Q h k = elim h [ ]
Spares-bind (stop assert_failed) f P Q h k = tt
Spares-bind (stop undefined) f P Q h k = tt
Spares-bind (stop out_of_fuel) f P Q h k = tt

-- A call that may only exit, and does not, is totally correct.
pub Returns-Spares :
    {A : Type 0} (m : Outcome A) (P Q : A → Type 0)
    → Returns m P
    → Spares m Q
    → Yields m (λ a. P a × Q a)
Returns-Spares (ok a) P Q h k = (h, k)
Returns-Spares (stop exit_failure) P Q h k = k
Returns-Spares (stop assert_failed) P Q h k = h
Returns-Spares (stop undefined) P Q h k = h
Returns-Spares (stop out_of_fuel) P Q h k = h

-- A call whose result is only put into shape.
pub bind_ok :
    {A B : Type 0} (m : Outcome A) (f : A → B) (b : B)
    → (m >>= λ a. ok (f a)) ≡ ok b
    → (a : A) × (m ≡ ok a) × (f a ≡ b)
bind_ok (ok a) f b e = (a, refl, cc)
bind_ok (stop s) f b e = absurd (cc)
