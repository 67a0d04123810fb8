-- ===== src/Prelude/Results.antt =====
-- Results of code that may read through NULL: `none` is such a fault.
use mathlib.Core.Option.{Option, none, some}
use mathlib.Core.Path.{◌≡◌, refl}
use mathlib.Core.Bool.{Bool, true, false}
use libydb.Prelude.Tests.{if◌then◌else◌}

infixl 5 ◌>>=◌
abbrev pub ◌>>=◌ {ℓ κ} : {A : Type ℓ} {B : Type κ} → Option A → (A → Option B) → Option B
none >>= f = none
some a >>= f = f a

-- The code returns, and what it returns satisfies `P`.
abbrev pub Returns {ℓ} : {A : Type ℓ} → (A → Type 0) → Option A → Type 0
Returns P none = ⊥
Returns P (some a) = P a

pub Returns->>= {ℓ κ} :
    {A : Type ℓ} {B : Type κ} {P : A → Type 0} (Q : B → Type 0) (o : Option A) (f : A → Option B)
    → Returns P o
    → ((a : A) → P a → Returns Q (f a))
    → Returns Q (o >>= f)
Returns->>= Q none f p k = absurd p
Returns->>= Q (some a) f p k = k a p

-- If the code returns, what it returns satisfies `Q`.
abbrev pub Ensures {ℓ μ} : {A : Type ℓ} → (A → Type μ) → Option A → Type μ
Ensures Q none = Unit
Ensures Q (some a) = Q a

pub Ensures->>= {ℓ κ μ ν} :
    {A : Type ℓ} {B : Type κ} {P : A → Type μ} (Q : B → Type ν) (o : Option A) (f : A → Option B)
    → Ensures P o
    → ((a : A) → P a → Ensures Q (f a))
    → Ensures Q (o >>= f)
Ensures->>= Q none f p k = tt
Ensures->>= Q (some a) f p k = k a p

-- A total result and what it ensures, together.
pub Returns-and_Ensures {ℓ μ} :
    {A : Type ℓ} (P : A → Type 0) (Q : A → Type μ) (o : Option A)
    → Returns P o
    → Ensures Q o
    → (a : A) × (o ≡ some a) × P a × Q a
Returns-and_Ensures P Q none p q = absurd p
Returns-and_Ensures P Q (some a) p q = (a, refl, p, q)

pub Ensures-if {ℓ μ} :
    {A : Type ℓ} (Q : A → Type μ) (c : Bool) (o p : Option A)
    → Ensures Q o
    → Ensures Q p
    → Ensures Q (if c then o else p)
Ensures-if Q true o p h k = h
Ensures-if Q false o p h k = k
