-- ===== src/Shared/Decimal.antt =====
-- std::to_string on a number that is not negative, and the number that digits stand for.
use Prim.Native.Nat.{ℕ, zero, suc, ◌+◌, ◌-◌, ◌*◌, ◌/◌, ◌%◌, ◌≤◌, ◌<◌}
use mathlib.Core.Path.{◌≡◌, refl, ◌∙◌}
use mathlib.Core.Logic.{inl, inr}
use mathlib.Core.Bool.{true, false}
use mathlib.Core.List.{[], ◌∷◌, ◌++◌}
use native.Mathlib.Omega.{arith}
use agora_im.Shared.Tests.{ltb, lt→ltb, ltb→lt, ltb→le, Bool-cases}
use agora_im.Shared.Lists.{length, length-append, replicate}
use agora_im.Shared.Text.{Bytes}

abbrev pub digit : ℕ → ℕ
digit n = b'0' + n % 10

-- The digits of a number, on fuel; more than the number is enough.
unfoldable pub decimal_on : ℕ → ℕ → Bytes
decimal_on zero n = []
decimal_on (suc fuel) n =
    elim (ltb n 10) [ true ↦ [] | false ↦ decimal_on fuel (n / 10) ] ++ digit n ∷ []

unfoldable pub decimal : ℕ → Bytes
decimal n = decimal_on (suc n) n

-- The number that digits stand for, behind those that make `m`.
pub value_from : ℕ → Bytes → ℕ
value_from m [] = m
value_from m (x ∷ xs) = value_from (m * 10 + (x - b'0')) xs

unfoldable pub value : Bytes → ℕ
value xs = value_from 0 xs

value_from-append :
    (m : ℕ) (xs : Bytes) (x : ℕ) → value_from m (xs ++ x ∷ []) ≡ value_from m xs * 10 + (x - b'0')
unfolding value_from
value_from-append m [] x = refl
value_from-append m (y ∷ ys) x = value_from-append (m * 10 + (y - b'0')) ys x

value-decimal_on : (fuel n : ℕ) → n < fuel → value_from 0 (decimal_on fuel n) ≡ n
unfolding decimal_on value_from
value-decimal_on zero n h = omega arith
value-decimal_on (suc fuel) n h = elim (Bool-cases (ltb n 10)) [
  | inl small ↦ let l = ltb→lt n 10 small in rw small (omega (arith, l))
  | inr large ↦
      let l = ltb→le n 10 large in
      let ih = value-decimal_on fuel (n / 10) (omega (arith, l)) in
      rw large (value_from-append 0 (decimal_on fuel (n / 10)) (digit n) ∙ omega (arith, ih))
]

pub value-decimal : (n : ℕ) → value (decimal n) ≡ n
unfolding value decimal
value-decimal n = value-decimal_on (suc n) n (omega arith)

tenth : (n p : ℕ) → n < p * 10 → n / 10 < p
tenth n p h = omega arith

abbrev pub ten_to : ℕ → ℕ
ten_to zero = 1
ten_to (suc w) = ten_to w * 10

-- A number of at most `w + 1` digits is written with no more.
length-decimal_on : (fuel n w : ℕ) → n < ten_to (suc w) → length (decimal_on fuel n) ≤ suc w
unfolding decimal_on
length-decimal_on zero n w h = omega arith
length-decimal_on (suc fuel) n zero h = rw (lt→ltb n 10 h) (omega arith)
length-decimal_on (suc fuel) n (suc w) h = elim (Bool-cases (ltb n 10)) [
  | inl small ↦ rw small (omega arith)
  | inr large ↦
      let ih = length-decimal_on fuel (n / 10) w (tenth n (ten_to (suc w)) h) in
      rw large (omega (arith, ih, length-append (decimal_on fuel (n / 10)) (digit n ∷ [])))
]

pub length-decimal : (n w : ℕ) → n < ten_to (suc w) → length (decimal n) ≤ suc w
unfolding decimal
length-decimal n w h = length-decimal_on (suc n) n w h

-- Zeros in front count for nothing.
pub value-zeros : (n : ℕ) (xs : Bytes) → value (replicate n b'0' ++ xs) ≡ value xs
unfolding value value_from
value-zeros zero xs = refl
value-zeros (suc n) xs = value-zeros n xs
