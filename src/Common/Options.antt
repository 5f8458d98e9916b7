-- ===== src/Common/Options.antt =====
-- Fallible steps: `none` is a fault, an access outside an array.
use mathlib.Core.Option.{Option, none, some}
use mathlib.Core.Logic.{◌⊎◌, inl, inr}
use mathlib.Core.Path.{◌≡◌, refl}
use mathlib.Core.Bool.{Bool, true, false}

infixl 5 ◌>>=◌
abbrev pub ◌>>=◌ {ℓ κ} : {A : Type ℓ} {B : Type κ} → Option A → (A → Option B) → Option B
none >>= f = none
some a >>= f = f a

-- `a && b` in C: `b` is evaluated only if `a` holds, so a fault in `b` shows only then.
infixr 35 ◌and_then◌
abbrev pub ◌and_then◌ : Option Bool → Option Bool → Option Bool
none and_then b = none
some true and_then b = b
some false and_then b = some false

pub and_then_assoc : (a b c : Option Bool) → (a and_then b) and_then c ≡ a and_then (b and_then c)
and_then_assoc none b c = refl
and_then_assoc (some true) b c = refl
and_then_assoc (some false) b c = refl

-- Inversion of a chain that succeeds.
pub >>=-eq-some {ℓ κ} :
    {A : Type ℓ} {B : Type κ} (m : Option A) (f : A → Option B) {b : B}
    → (m >>= f) ≡ some b
    → (a : A) × (m ≡ some a) × (f a ≡ some b)
>>=-eq-some none f h = cc
>>=-eq-some (some a) f h = (a, refl, h)

pub Option-cases {ℓ} : {A : Type ℓ} (o : Option A) → (o ≡ none) ⊎ ((a : A) × (o ≡ some a))
Option-cases none = inl refl
Option-cases (some a) = inr (a, refl)
