-- ===== src/Base/Outcomes.antt =====
-- How a kernel routine ends: with a value, in PANIC or a failed ASSERT, in a fault such as a read
-- through NULL or out of a buffer, or blocked until another thread acts. A loop that runs on fuel
-- may use it up.
use mathlib.Core.Bool.{Bool, true, false}
use mathlib.Core.Path.{◌≡◌, refl}

pub data Outcome {ℓ} (A : Type ℓ) : Type ℓ where
  ok : A → Outcome A
  panic : Outcome A
  fault : Outcome A
  blocked : Outcome A
  out_of_fuel : Outcome A

infixl 5 ◌>>=◌ ◌>>◌
abbrev pub ◌>>=◌ {ℓ κ} : {A : Type ℓ} {B : Type κ} → Outcome A → (A → Outcome B) → Outcome B
ok a >>= f = f a
panic >>= f = panic
fault >>= f = fault
blocked >>= f = blocked
out_of_fuel >>= f = out_of_fuel

abbrev pub ◌>>◌ {ℓ} : {B : Type ℓ} → Outcome (Unit {0}) → Outcome B → Outcome B
m >> k = m >>= λ _. k

-- ASSERT: the kernel stops in PANIC where the condition fails.
abbrev pub assert : Bool → Outcome (Unit {0})
assert true = ok tt
assert false = panic

-- The outcome is a value with the property; never a panic, a fault, blocking or too little fuel.
abbrev pub Returns {ℓ} : {A : Type ℓ} → (A → Type 0) → Outcome A → Type 0
Returns P (ok a) = P a
Returns P panic = ⊥
Returns P fault = ⊥
Returns P blocked = ⊥
Returns P out_of_fuel = ⊥

pub Returns-bind {ℓ κ} :
    {A : Type ℓ} {B : Type κ} (P : A → Type 0) (Q : B → Type 0) (r : Outcome A) (f : A → Outcome B)
    → Returns P r
    → ((a : A) → P a → Returns Q (f a))
    → Returns Q (r >>= f)
Returns-bind P Q (ok a) f p k = k a p
Returns-bind P Q panic f p k = p
Returns-bind P Q fault f p k = p
Returns-bind P Q blocked f p k = p
Returns-bind P Q out_of_fuel f p k = p

pub Returns-ok {ℓ} :
    {A : Type ℓ} (P : A → Type 0) (r : Outcome A) → Returns P r → (a : A) × (r ≡ ok a) × P a
Returns-ok P (ok a) p = (a, refl, p)
Returns-ok P panic p = absurd p
Returns-ok P fault p = absurd p
Returns-ok P blocked p = absurd p
Returns-ok P out_of_fuel p = absurd p

pub Returns-mono {ℓ} :
    {A : Type ℓ} (P Q : A → Type 0) (r : Outcome A)
    → Returns P r
    → ((a : A) → P a → Q a)
    → Returns Q r
Returns-mono P Q (ok a) p k = k a p
Returns-mono P Q panic p k = p
Returns-mono P Q fault p k = p
Returns-mono P Q blocked p k = p
Returns-mono P Q out_of_fuel p k = p

-- The property holds of the value, if there is one: what a call that stops in PANIC does not break.
abbrev pub IfOk {ℓ} : {A : Type ℓ} → (A → Type 0) → Outcome A → Type 0
IfOk P (ok a) = P a
IfOk P panic = Unit
IfOk P fault = Unit
IfOk P blocked = Unit
IfOk P out_of_fuel = Unit

pub Returns→IfOk {ℓ} : {A : Type ℓ} (P : A → Type 0) (r : Outcome A) → Returns P r → IfOk P r
Returns→IfOk P (ok a) p = p
Returns→IfOk P panic p = tt
Returns→IfOk P fault p = tt
Returns→IfOk P blocked p = tt
Returns→IfOk P out_of_fuel p = tt

-- A value with the property, or a failed assertion; never a fault, blocking or too little fuel.
abbrev pub OrPanic {ℓ} : {A : Type ℓ} → (A → Type 0) → Outcome A → Type 0
OrPanic P (ok a) = P a
OrPanic P panic = Unit
OrPanic P fault = ⊥
OrPanic P blocked = ⊥
OrPanic P out_of_fuel = ⊥

pub OrPanic-bind {ℓ κ} :
    {A : Type ℓ} {B : Type κ} (P : A → Type 0) (Q : B → Type 0) (r : Outcome A) (f : A → Outcome B)
    → OrPanic P r
    → ((a : A) → P a → OrPanic Q (f a))
    → OrPanic Q (r >>= f)
OrPanic-bind P Q (ok a) f p k = k a p
OrPanic-bind P Q panic f p k = p
OrPanic-bind P Q fault f p k = p
OrPanic-bind P Q blocked f p k = p
OrPanic-bind P Q out_of_fuel f p k = p

pub OrPanic-mono {ℓ} :
    {A : Type ℓ} (P Q : A → Type 0) (r : Outcome A)
    → OrPanic P r
    → ((a : A) → P a → Q a)
    → OrPanic Q r
OrPanic-mono P Q (ok a) p k = k a p
OrPanic-mono P Q panic p k = p
OrPanic-mono P Q fault p k = p
OrPanic-mono P Q blocked p k = p
OrPanic-mono P Q out_of_fuel p k = p
