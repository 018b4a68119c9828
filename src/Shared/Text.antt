-- ===== src/Shared/Text.antt =====
-- Byte strings (std::string) as lists of numbers: literals, comparison and std::find.
use Prim.Native.Nat.{ℕ}
use Prim.Native.Char.{code}
use Prim.Native.String.{String}
use mathlib.Core.Path.{◌≡◌, refl, ap₂}
use mathlib.Core.Logic.{◌≢◌, ◌↔◌, inl, inr}
use mathlib.Core.Bool.{Bool, true, false, ◌&&◌}
use mathlib.Core.Option.{Option, none, some}
use mathlib.Core.List.{List, [], ◌∷◌, ◌++◌}
use native.Mathlib.Omega.{arith}
use agora_im.Shared.Tests.{◌==◌, ==_iff, if◌then◌else◌, Bool-cases}

abbrev pub Bytes : Type 0
Bytes = List ℕ

-- The bytes of an ASCII literal.
abbrev pub codes : String → Bytes
codes String.[] = []
codes (String.◌∷◌ c s) = code c ∷ codes s

-- The comparison of two strings.
unfoldable pub eq_bytes : Bytes → Bytes → Bool
eq_bytes [] [] = true
eq_bytes [] (y ∷ ys) = false
eq_bytes (x ∷ xs) [] = false
eq_bytes (x ∷ xs) (y ∷ ys) = x == y && eq_bytes xs ys

and_true : (a b : Bool) → (a && b) ≡ true → (a ≡ true) × (b ≡ true)
and_true true true h = (refl, refl)
and_true true false h = (refl, h)
and_true false _ h = absurd (cc)

pub eq_bytes_refl : (xs : Bytes) → eq_bytes xs xs ≡ true
unfolding eq_bytes
eq_bytes_refl [] = refl
eq_bytes_refl (x ∷ xs) = rw ((==_iff x x).1 refl, eq_bytes_refl xs)

pub eq_of_eq_bytes : (xs ys : Bytes) → eq_bytes xs ys ≡ true → xs ≡ ys
unfolding eq_bytes
eq_of_eq_bytes [] [] h = refl
eq_of_eq_bytes [] (y ∷ ys) h = absurd (cc)
eq_of_eq_bytes (x ∷ xs) [] h = absurd (cc)
eq_of_eq_bytes (x ∷ xs) (y ∷ ys) h =
    let (a, b) = and_true (x == y) (eq_bytes xs ys) h in
    ap₂ (λ (z : ℕ) (zs : Bytes). z ∷ zs) ((==_iff x y).0 a) (eq_of_eq_bytes xs ys b)

pub eq_bytes_iff : (xs ys : Bytes) → (eq_bytes xs ys ≡ true) ↔ (xs ≡ ys)
eq_bytes_iff xs ys = (eq_of_eq_bytes xs ys, λ e. rw e (eq_bytes_refl ys))

pub eq_bytes_ne : (xs ys : Bytes) → xs ≢ ys → eq_bytes xs ys ≡ false
eq_bytes_ne xs ys h = elim (Bool-cases (eq_bytes xs ys)) [
  | inl e ↦ absurd (h (eq_of_eq_bytes xs ys e))
  | inr e ↦ e
]

-- std::find for the byte `c`: the bytes before its first occurrence and those behind it.
unfoldable pub split_at : ℕ → Bytes → Option (Bytes × Bytes)
split_at c [] = none
split_at c (x ∷ xs) =
    let later : Option (Bytes × Bytes) = elim (split_at c xs) [
      | none ↦ none
      | some (pre, post) ↦ some (x ∷ pre, post)
    ] in
    if x == c then some ([], xs) else later

-- None of the bytes is `c`.
abbrev pub Free : ℕ → Bytes → Type 0
Free c [] = Unit {0}
Free c (x ∷ xs) = (x ≢ c) × Free c xs

pub split_at-append :
    (c : ℕ) (pre post : Bytes) → Free c pre → split_at c (pre ++ c ∷ post) ≡ some (pre, post)
unfolding split_at
split_at-append c [] post f = rw ((==_iff c c).1 refl)
split_at-append c (x ∷ pre) post f = ground (arith, split_at-append c pre post f.1)

pub split_at-Free : (c : ℕ) (xs : Bytes) → Free c xs → split_at c xs ≡ none
unfolding split_at
split_at-Free c [] f = refl
split_at-Free c (x ∷ xs) f = ground (arith, split_at-Free c xs f.1)

pub Free-append : (c : ℕ) (xs ys : Bytes) → Free c xs → Free c ys → Free c (xs ++ ys)
Free-append c [] ys f g = g
Free-append c (x ∷ xs) ys f g = (f.0, Free-append c xs ys f.1 g)
