-- ===== src/Base/Outcome.antt =====
-- What a call does: it returns, or the process stops by `invariant_abort`, by `expect` or by an
-- assertion. Nothing runs after a stop.
use mathlib.Core.Option.{Option, none, some}

pub data Outcome {ℓ} (A : Type ℓ) : Type ℓ where
  done : A → Outcome A
  stop : Outcome A

infixl 5 ◌>>=◌
abbrev pub ◌>>=◌ {ℓ κ} : {A : Type ℓ} {B : Type κ} → Outcome A → (A → Outcome B) → Outcome B
done a >>= f = f a
stop >>= f = stop

-- Total correctness: the call returns, and its result has the property.
abbrev pub Returns {ℓ} : {A : Type ℓ} → Outcome A → (A → Type 0) → Type 0
Returns (done a) P = P a
Returns stop P = ⊥

pub Returns->>= {ℓ κ} :
    {A : Type ℓ} {B : Type κ} (m : Outcome A) (f : A → Outcome B) (P : A → Type 0) (Q : B → Type 0)
    → Returns m P
    → ((a : A) → P a → Returns (f a) Q)
    → Returns (m >>= f) Q
Returns->>= (done a) f P Q h k = k a h
Returns->>= stop f P Q h k = absurd h

pub Returns-map {ℓ} :
    {A : Type ℓ} (m : Outcome A) (P Q : A → Type 0)
    → Returns m P
    → ((a : A) → P a → Q a)
    → Returns m Q
Returns-map (done a) P Q h k = k a h
Returns-map stop P Q h k = h

-- What a result has, if there is one.
abbrev pub WhenSome {ℓ} : {A : Type ℓ} → (A → Type 0) → Option A → Type 0
WhenSome P none = Unit
WhenSome P (some a) = P a

pub Returns-next {ℓ κ} :
    {A : Type ℓ} {B : Type κ} (m : Outcome (Option A)) (b : Outcome B) (f : A → Outcome B)
    (P : A → Type 0) (Q : B → Type 0)
    → Returns m (WhenSome P)
    → Returns b Q
    → ((a : A) → P a → Returns (f a) Q)
    → Returns (m >>= λ o. elim o [ none ↦ b | some a ↦ f a ]) Q
Returns-next (done none) b f P Q h k next = k
Returns-next (done (some a)) b f P Q h k next = next a h
Returns-next stop b f P Q h k next = absurd h
