-- ===== src/Outcome.antt =====
-- The outcome of C code: a value, an access outside an object (which C leaves undefined), or a
-- wait that never ends.

use modbus_sphere_library.Base.{◌≡◌, refl, Bool, true, false, if◌then◌else◌}

pub data Outcome {ℓ} (A : Type ℓ) : Type ℓ where
  ok : A → Outcome A
  fault : Outcome A
  hang : Outcome A

-- The first of two steps that does not return decides.
infixl 5 ◌>>=◌
abbrev pub ◌>>=◌ {ℓ κ} :
    {Value : Type ℓ} {Next : Type κ} → Outcome Value → (Value → Outcome Next) → Outcome Next
fault >>= then_do = fault
hang >>= then_do = hang
ok value >>= then_do = then_do value

-- The code returns, and what it returns satisfies `P`.
abbrev pub Returns {ℓ} : {A : Type ℓ} → (A → Type 0) → Outcome A → Type 0
Returns P (ok a) = P a
Returns P fault = ⊥
Returns P hang = ⊥

pub Returns->>= {ℓ κ} :
    {A : Type ℓ} {B : Type κ} (P : A → Type 0) (Q : B → Type 0) (m : Outcome A) (f : A → Outcome B)
    → Returns P m
    → ((a : A) → P a → Returns Q (f a))
    → Returns Q (m >>= f)
Returns->>= P Q (ok a) f p q = q a p
Returns->>= P Q fault f p q = absurd p
Returns->>= P Q hang f p q = absurd p

pub Returns-imp {ℓ} :
    {A : Type ℓ} (P : A → Type 0) (Q : A → Type 0) (m : Outcome A)
    → Returns P m
    → ((a : A) → P a → Q a)
    → Returns Q m
Returns-imp P Q (ok a) p q = q a p
Returns-imp P Q fault p q = absurd p
Returns-imp P Q hang p q = absurd p

pub Returns-if {ℓ} :
    {A : Type ℓ} (P : A → Type 0) (b : Bool) (m n : Outcome A)
    → Returns P m
    → Returns P n
    → Returns P (if b then m else n)
Returns-if P true m n p q = p
Returns-if P false m n p q = q

-- The code does not run for ever: it returns, or makes an invalid access.
abbrev pub Ends {ℓ} : {A : Type ℓ} → Outcome A → Type 0
Ends (ok a) = Unit {0}
Ends fault = Unit {0}
Ends hang = ⊥

pub Ends->>= {ℓ κ} :
    {A : Type ℓ} {B : Type κ} (m : Outcome A) (f : A → Outcome B)
    → Ends m
    → ((a : A) → m ≡ ok a → Ends (f a))
    → Ends (m >>= f)
Ends->>= (ok a) f e h = h a refl
Ends->>= fault f e h = e
Ends->>= hang f e h = e

-- The code does not run for ever, and what it returns, if it makes no invalid access, satisfies `P`.
abbrev pub Keeps {ℓ} : {A : Type ℓ} → (A → Type 0) → Outcome A → Type 0
Keeps P (ok a) = P a
Keeps P fault = Unit {0}
Keeps P hang = ⊥

pub Keeps->>= {ℓ κ} :
    {A : Type ℓ} {B : Type κ} (P : A → Type 0) (Q : B → Type 0) (m : Outcome A) (f : A → Outcome B)
    → Keeps P m
    → ((a : A) → P a → Keeps Q (f a))
    → Keeps Q (m >>= f)
Keeps->>= P Q (ok a) f p q = q a p
Keeps->>= P Q fault f p q = tt
Keeps->>= P Q hang f p q = absurd p

pub Returns-Keeps {ℓ} : {A : Type ℓ} (P : A → Type 0) (m : Outcome A) → Returns P m → Keeps P m
Returns-Keeps P (ok a) p = p
Returns-Keeps P fault p = absurd p
Returns-Keeps P hang p = absurd p

pub Keeps-if {ℓ} :
    {A : Type ℓ} (P : A → Type 0) (b : Bool) (m n : Outcome A)
    → Keeps P m
    → Keeps P n
    → Keeps P (if b then m else n)
Keeps-if P true m n p q = p
Keeps-if P false m n p q = q

-- An invalid access is possible only where `faults` says so.
abbrev pub Allowed {ℓ} : {A : Type ℓ} → (faults : Bool) → (A → Type 0) → Outcome A → Type 0
Allowed true P m = Keeps P m
Allowed false P m = Returns P m

pub Allowed-Keeps {ℓ} :
    {A : Type ℓ} (faults : Bool) (P : A → Type 0) (m : Outcome A) → Allowed faults P m → Keeps P m
Allowed-Keeps true P m p = p
Allowed-Keeps false P m p = Returns-Keeps P m p

pub Allowed->>= {ℓ κ} :
    {A : Type ℓ} {B : Type κ} (faults : Bool) (P : A → Type 0) (Q : B → Type 0) (m : Outcome A)
    (f : A → Outcome B)
    → Returns P m
    → ((a : A) → P a → Allowed faults Q (f a))
    → Allowed faults Q (m >>= f)
Allowed->>= faults P Q (ok a) f p q = q a p
Allowed->>= faults P Q fault f p q = absurd p
Allowed->>= faults P Q hang f p q = absurd p

-- What holds of the rest for every result holds of the whole.
pub Returns-elim {ℓ κ} :
    {A : Type ℓ} {B : Type κ} (P : A → Type 0) (Q : Outcome B → Type 0) (m : Outcome A)
    (f : A → Outcome B)
    → Returns P m
    → ((a : A) → P a → Q (f a))
    → Q (m >>= f)
Returns-elim P Q (ok a) f p q = q a p
Returns-elim P Q fault f p q = absurd p
Returns-elim P Q hang f p q = absurd p

pub if-elim {ℓ} :
    {A : Type ℓ} (Q : A → Type 0) (b : Bool) (x y : A) → Q x → Q y → Q (if b then x else y)
if-elim Q true x y p q = p
if-elim Q false x y p q = q
