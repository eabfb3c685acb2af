-- ===== src/Base/Calls.antt =====
-- What a call of a C function comes to. `fault` is undefined behaviour (a read or a write outside an
-- object, a null or dangling pointer), `abort` a failed assertion or an exit, and `timeout` a loop of
-- the model whose fuel ran out.

use mathlib.Core.Path.{◌≡◌, refl}

pub data Outcome {ℓ} (A : Type ℓ) : Type ℓ where
  ok : A → Outcome A
  fault : Outcome A
  abort : Outcome A
  timeout : Outcome A

infixl 5 ◌>>=◌
abbrev pub ◌>>=◌ {ℓ κ} : {A : Type ℓ} {B : Type κ} → Outcome A → (A → Outcome B) → Outcome B
ok a >>= f = f a
fault >>= f = fault
abort >>= f = abort
timeout >>= f = timeout

-- The call returns with `P` of its result, or its behaviour is undefined; it does not loop and fails
-- no assertion.
abbrev pub Ensures {ℓ} : {A : Type ℓ} → (A → Type 0) → Outcome A → Type 0
Ensures P (ok a) = P a
Ensures P fault = Unit
Ensures P abort = ⊥
Ensures P timeout = ⊥

pub Ensures-bind {ℓ κ} :
    {A : Type ℓ} {B : Type κ} (P : A → Type 0) (Q : B → Type 0) (m : Outcome A) (f : A → Outcome B)
    → Ensures P m
    → ((a : A) → P a → Ensures Q (f a))
    → Ensures Q (m >>= f)
Ensures-bind P Q (ok a) f hm hf = hf a hm
Ensures-bind P Q fault f hm hf = tt
Ensures-bind P Q abort f hm hf = absurd hm
Ensures-bind P Q timeout f hm hf = absurd hm

abbrev pub Finishes {ℓ} : {A : Type ℓ} → Outcome A → Type 0
Finishes (ok a) = Unit
Finishes fault = Unit
Finishes abort = ⊥
Finishes timeout = ⊥

pub Finishes-bind {ℓ κ} :
    {A : Type ℓ} {B : Type κ} (m : Outcome A) (f : A → Outcome B)
    → Finishes m
    → ((a : A) → Finishes (f a))
    → Finishes (m >>= f)
Finishes-bind (ok a) f hm hf = hf a
Finishes-bind fault f hm hf = tt
Finishes-bind abort f hm hf = absurd hm
Finishes-bind timeout f hm hf = absurd hm

-- A chain behind a call that returns only where the rest faults.
pub fault-bind {ℓ κ} :
    {A : Type ℓ} {B : Type κ} (P : A → Type 0) (m : Outcome A) (f : A → Outcome B)
    → Ensures P m
    → ((a : A) → P a → f a ≡ fault)
    → (m >>= f) ≡ fault
fault-bind P (ok a) f hm hf = hf a hm
fault-bind P fault f hm hf = refl
fault-bind P abort f hm hf = absurd hm
fault-bind P timeout f hm hf = absurd hm

-- The call returns with `P` of its result, or its behaviour is undefined, or it stops the program; it
-- does not loop.
abbrev pub Ends {ℓ} : {A : Type ℓ} → (A → Type 0) → Outcome A → Type 0
Ends P (ok a) = P a
Ends P fault = Unit
Ends P abort = Unit
Ends P timeout = ⊥

pub Ends-bind {ℓ κ} :
    {A : Type ℓ} {B : Type κ} (P : A → Type 0) (Q : B → Type 0) (m : Outcome A) (f : A → Outcome B)
    → Ends P m
    → ((a : A) → P a → Ends Q (f a))
    → Ends Q (m >>= f)
Ends-bind P Q (ok a) f hm hf = hf a hm
Ends-bind P Q fault f hm hf = tt
Ends-bind P Q abort f hm hf = tt
Ends-bind P Q timeout f hm hf = absurd hm

pub Ends-of_Ensures {ℓ} : {A : Type ℓ} (P : A → Type 0) (m : Outcome A) → Ensures P m → Ends P m
Ends-of_Ensures P (ok a) h = h
Ends-of_Ensures P fault h = tt
Ends-of_Ensures P abort h = absurd h
Ends-of_Ensures P timeout h = h

-- A call of which only its end matters.
pub Ends-after {ℓ κ} :
    {A : Type ℓ} {B : Type κ} (Q : B → Type 0) (m : Outcome A) (f : A → Outcome B)
    → Finishes m
    → ((a : A) → Ends Q (f a))
    → Ends Q (m >>= f)
Ends-after Q (ok a) f hm hf = hf a
Ends-after Q fault f hm hf = tt
Ends-after Q abort f hm hf = tt
Ends-after Q timeout f hm hf = absurd hm
