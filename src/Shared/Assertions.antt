-- ===== src/Shared/Assertions.antt =====
-- Calls that may fail an assertion: `none` is the failed assertion, and nothing follows it.
use mathlib.Core.Path.{◌≡◌, subst}
use mathlib.Core.Option.{Option, none, some}

infixl 5 ◌>>=◌
abbrev pub ◌>>=◌ : {A B : Type 0} → Option A → (A → Option B) → Option B
none >>= f = none
some a >>= f = f a

-- `P` holds of what a call gives, if it gives something.
abbrev pub After {ℓ} : {A : Type ℓ} → (A → Type 0) → Option A → Type 0
After P none = Unit {0}
After P (some a) = P a

pub After-some {ℓ} :
    {A : Type ℓ} (P : A → Type 0) (o : Option A) (a : A) → o ≡ some a → After P o → P a
After-some P o a q h = subst (After P) q h
