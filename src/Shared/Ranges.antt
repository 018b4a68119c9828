-- ===== src/Shared/Ranges.antt =====
-- Ranges `[i, i + n)` of an array held as a list: reading, writing (memcpy, std::copy), resizing.
use Prim.Native.Nat.{ℕ, zero, suc, ◌+◌, ◌-◌, ◌≤◌}
use mathlib.Core.Path.{◌≡◌, refl, ap}
use mathlib.Core.List.{List, [], ◌∷◌, ◌++◌}
use native.Mathlib.Omega.{arith}
use agora_im.Shared.Lists.{
  length, take, drop, replicate, length-append, length-take, length-drop, length-replicate,
  take_all, take-append_left, drop-append_left,
}

module _ {ℓ} {A : Type ℓ} where
  -- The `n` elements from index `i` on.
  abbrev pub range : List A → ℕ → ℕ → List A
  range xs i n = take n (drop i xs)

  -- `ys` written from index `i` on. What would fall behind the end is not written.
  unfoldable pub overwrite : List A → ℕ → List A → List A
  overwrite [] i ys = []
  overwrite (x ∷ xs) zero [] = x ∷ xs
  overwrite (x ∷ xs) zero (y ∷ ys) = y ∷ overwrite xs zero ys
  overwrite (x ∷ xs) (suc i) ys = x ∷ overwrite xs i ys

  -- std::vector::resize: cut at `n`, or filled up with `a`.
  pub resize : List A → ℕ → A → List A
  resize xs n a = take n xs ++ replicate (n - length xs) a

  pub length-overwrite :
      (xs : List A) (i : ℕ) (ys : List A) → length (overwrite xs i ys) ≡ length xs
  unfolding overwrite
  length-overwrite [] i ys = refl
  length-overwrite (x ∷ xs) zero [] = refl
  length-overwrite (x ∷ xs) zero (y ∷ ys) = ap suc (length-overwrite xs zero ys)
  length-overwrite (x ∷ xs) (suc i) ys = ap suc (length-overwrite xs i ys)

  pub length-range : (xs : List A) (i n : ℕ) → i + n ≤ length xs → length (range xs i n) ≡ n
  length-range xs i n h = omega (arith, length-take n (drop i xs), length-drop i xs)

  pub length-resize : (xs : List A) (n : ℕ) (a : A) → length (resize xs n a) ≡ n
  unfolding resize
  length-resize xs n a = omega (
    arith,
    length-append (take n xs) (replicate (n - length xs) a),
    length-take n xs,
    length-replicate (n - length xs) a,
  )

  pub range-append :
      (xs ys : List A) (i n : ℕ) → i + n ≤ length xs → range (xs ++ ys) i n ≡ range xs i n
  range-append xs ys i n h =
      rw (drop-append_left i xs ys (omega arith))
        (take-append_left n (drop i xs) ys (omega (arith, length-drop i xs)))

  -- Growing an array leaves its ranges as they were.
  pub range-resize :
      (xs : List A) (i n m : ℕ) (a : A)
      → i + n ≤ length xs
      → length xs ≤ m
      → range (resize xs m a) i n ≡ range xs i n
  unfolding resize
  range-resize xs i n m a h k =
      rw (take_all m xs k) (range-append xs (replicate (m - length xs) a) i n h)

  overwrite_head :
      (xs ys : List A) → length ys ≤ length xs → take (length ys) (overwrite xs zero ys) ≡ ys
  unfolding overwrite
  overwrite_head xs [] h = refl
  overwrite_head [] (y ∷ ys) h = absurd (omega arith)
  overwrite_head (x ∷ xs) (y ∷ ys) h = ap (λ l. y ∷ l) (overwrite_head xs ys (omega arith))

  take-overwrite :
      (xs ys : List A) (n m : ℕ)
      → m ≡ n + length ys
      → m ≤ length xs
      → take m (overwrite xs n ys) ≡ take n xs ++ ys
  unfolding overwrite
  take-overwrite xs ys zero m e h =
      let e' : m ≡ length ys = omega arith in rw e' (overwrite_head xs ys (omega arith))
  take-overwrite [] ys (suc n) m e h = absurd (omega arith)
  take-overwrite (x ∷ xs) ys (suc n) zero e h = absurd (omega arith)
  take-overwrite (x ∷ xs) ys (suc n) (suc m) e h =
      ap (λ l. x ∷ l) (take-overwrite xs ys n m (omega arith) (omega arith))

  -- Bytes written directly behind a range extend it.
  pub range-overwrite :
      (xs ys : List A) (i n j m : ℕ)
      → j ≡ i + n
      → m ≡ n + length ys
      → i + m ≤ length xs
      → range (overwrite xs j ys) i m ≡ range xs i n ++ ys
  unfolding overwrite
  range-overwrite xs ys zero n j m e f h =
      let e' : j ≡ n = omega arith in rw e' (take-overwrite xs ys n m f (omega arith))
  range-overwrite [] ys (suc i) n j m e f h = absurd (omega arith)
  range-overwrite (x ∷ xs) ys (suc i) n zero m e f h = absurd (omega arith)
  range-overwrite (x ∷ xs) ys (suc i) n (suc j) m e f h =
      range-overwrite xs ys i n j m (omega arith) f (omega arith)

  take_nil : (n : ℕ) → take {A = A} n [] ≡ []
  take_nil zero = refl
  take_nil (suc n) = refl

  drop_shift : (xs : List A) (i k j : ℕ) → j ≡ i + k → drop k (drop i xs) ≡ drop j xs
  drop_shift xs zero k j e = let e' : j ≡ k = omega arith in rw e'
  drop_shift [] (suc i) zero j e = let e' : j ≡ suc i = omega arith in rw e'
  drop_shift [] (suc i) (suc k) zero e = refl
  drop_shift [] (suc i) (suc k) (suc j) e = refl
  drop_shift (x ∷ xs) (suc i) k zero e = absurd (omega arith)
  drop_shift (x ∷ xs) (suc i) k (suc j) e = drop_shift xs i k j (omega arith)

  pub drop-take : (k n : ℕ) (xs : List A) → drop k (take n xs) ≡ take (n - k) (drop k xs)
  drop-take zero n xs = let e : n - 0 ≡ n = omega arith in rw e
  drop-take (suc k) zero xs = let e : 0 - suc k ≡ 0 = omega arith in rw e
  drop-take (suc k) (suc n) [] =
      let e : suc n - suc k ≡ n - k = omega arith in rw (e, take_nil (n - k))
  drop-take (suc k) (suc n) (x ∷ xs) =
      let e : suc n - suc k ≡ n - k = omega arith in rw e (drop-take k n xs)

  pub take-take : (k n : ℕ) (xs : List A) → k ≤ n → take k (take n xs) ≡ take k xs
  take-take zero n xs h = refl
  take-take (suc k) zero xs h = absurd (omega arith)
  take-take (suc k) (suc n) [] h = refl
  take-take (suc k) (suc n) (x ∷ xs) h = ap (λ l. x ∷ l) (take-take k n xs (omega arith))

  -- The ranges that a cut of a range at `k` gives.
  pub drop-range :
      (xs : List A) (i n k j : ℕ) → j ≡ i + k → drop k (range xs i n) ≡ range xs j (n - k)
  drop-range xs i n k j e = rw (drop-take k n (drop i xs), drop_shift xs i k j e)
