-- ===== src/Shared/Faults.antt =====
-- Calls that may fail. `dangling` is a use of freed memory, which C++ leaves undefined;
-- `no_memory` is the exception of `new`.

pub data Error : Type 0 where
  dangling no_memory : Error

pub data Result {ℓ} (A : Type ℓ) : Type ℓ where
  ok : A → Result A
  err : Error → Result A

infixl 5 ◌>>=◌
abbrev pub ◌>>=◌ {ℓ κ} : {A : Type ℓ} {B : Type κ} → Result A → (A → Result B) → Result B
ok a >>= f = f a
err e >>= f = err e

-- No freed memory is used, and what is returned satisfies `P`.
abbrev pub Safe {ℓ} : {A : Type ℓ} → (A → Type 0) → Result A → Type 0
Safe P (ok a) = P a
Safe P (err no_memory) = Unit
Safe P (err dangling) = ⊥

pub Safe-bind {ℓ κ} :
    {A : Type ℓ} {B : Type κ} (P : A → Type 0) (Q : B → Type 0) (r : Result A) (f : A → Result B)
    → Safe P r
    → ((a : A) → P a → Safe Q (f a))
    → Safe Q (r >>= f)
Safe-bind P Q (ok a) f h k = k a h
Safe-bind P Q (err no_memory) f h k = tt
Safe-bind P Q (err dangling) f h k = absurd h

pub Safe-map {ℓ} :
    {A : Type ℓ} (P Q : A → Type 0) (r : Result A) → ((a : A) → P a → Q a) → Safe P r → Safe Q r
Safe-map P Q (ok a) f h = f a h
Safe-map P Q (err no_memory) f h = tt
Safe-map P Q (err dangling) f h = h
