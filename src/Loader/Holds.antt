-- ===== src/Loader/Holds.antt =====
-- What holds of the result of a step, if it goes on; running out of fuel is excluded.
use vadm.Base.{◌≡◌, refl, Bool, true, false, if◌then◌else◌, Option, none, some}
use vadm.Loader.State.{
  Load, continues, refused, fault, out_of_fuel, ◌>>=◌, require, or_refused, or_fault,
}

abbrev pub Holds {ℓ} : {A : Type ℓ} → (A → Type 0) → Load A → Type 0
Holds P (continues a) = P a
Holds P refused = Unit
Holds P fault = Unit
Holds P out_of_fuel = ⊥

-- A chain of steps.
pub Holds-bind {ℓ κ} :
    {A : Type ℓ} {B : Type κ} (P : A → Type 0) (Q : B → Type 0) (x : Load A) (f : A → Load B)
    → Holds P x
    → ((a : A) → P a → Holds Q (f a))
    → Holds Q (x >>= f)
Holds-bind P Q (continues a) f h g = g a h
Holds-bind P Q refused f h g = tt
Holds-bind P Q fault f h g = tt
Holds-bind P Q out_of_fuel f h g = absurd h

-- A test of the code.
pub Holds-require : (b : Bool) → Holds (λ (x : Bool). b ≡ true) (require b)
Holds-require true = refl
Holds-require false = tt

pub Holds-or_fault : {A : Type 0} (o : Option A) → Holds (λ a. o ≡ some a) (or_fault o)
Holds-or_fault none = tt
Holds-or_fault (some a) = refl

pub Holds-or_refused : {A : Type 0} (o : Option A) → Holds (λ a. o ≡ some a) (or_refused o)
Holds-or_refused none = tt
Holds-or_refused (some a) = refl

pub Holds-unless_fault {ℓ} :
    {A : Type ℓ} (P : A → Type 0) (b : Bool) (x : Load A)
    → (b ≡ true → Holds P x)
    → Holds P (if b then x else fault)
Holds-unless_fault P true x h = h refl
Holds-unless_fault P false x h = tt

pub Holds-map {ℓ} :
    {A : Type ℓ} (P Q : A → Type 0) (x : Load A) → Holds P x → ((a : A) → P a → Q a) → Holds Q x
Holds-map P Q (continues a) h g = g a h
Holds-map P Q refused h g = tt
Holds-map P Q fault h g = tt
Holds-map P Q out_of_fuel h g = absurd h

-- A branch of the code.
pub Holds-if {ℓ} :
    {A : Type ℓ} (P : A → Type 0) (b : Bool) (x y : Load A)
    → (b ≡ true → Holds P x)
    → (b ≡ false → Holds P y)
    → Holds P (if b then x else y)
Holds-if P true x y h k = h refl
Holds-if P false x y h k = k refl
