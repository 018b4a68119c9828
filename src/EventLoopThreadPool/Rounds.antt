-- ===== src/EventLoopThreadPool/Rounds.antt =====
-- The loops take turns.
use agora_im.Shared.{
  ℕ, zero, suc, ◌+◌, ◌<◌, ◌≡◌, ◌∙◌, ap, refl, sym, Bool, true, false, Option, some, List, [], ◌∷◌,
  ◌++◌, append_assoc, leb, ◌==◌, if◌then◌else◌, arith, ap₂, Bytes, length, get_elem?, length-append,
  replicate,
}
use agora_im.Shared.Assertions.{◌>>=◌}
use agora_im.EventLoopThreadPool.{
  EventLoopThreadPool, new, set_thread_num, start_threads, start, get_next_loop,
}

-- The loops that this many calls of `getNextLoop` give.
unfoldable pub calls : ℕ → EventLoopThreadPool → Option (List ℕ × EventLoopThreadPool)
calls zero p = some ([], p)
calls (suc n) p = do (l, p') ← get_next_loop p; (ls, p'') ← calls n p'; some (l ∷ ls, p'')

get_elem?-append : (xs ys : List ℕ) (y : ℕ) → get_elem? (xs ++ y ∷ ys) (length xs) ≡ some y
get_elem?-append [] ys y = refl
get_elem?-append (x ∷ xs) ys y = get_elem?-append xs ys y

-- This many rounds, of as many calls as there are loops each.
unfoldable pub rounds : ℕ → EventLoopThreadPool → Option (List (List ℕ) × EventLoopThreadPool)
rounds zero p = some ([], p)
rounds (suc m) p = do
  (ls, p') ← calls (length p.loops) p
  (lss, p'') ← rounds m p'
  some (ls ∷ lss, p'')

-- A started pool with these loops, at this place.
abbrev at : EventLoopThreadPool → List ℕ → ℕ → EventLoopThreadPool
at p xs n = record p { started = true; loops = xs; next = n }

next_of :
    (p : EventLoopThreadPool) (xs before after : List ℕ) (x n : ℕ)
    → xs ≡ before ++ x ∷ after
    → n ≡ length before
    → get_next_loop (at p xs n) ≡ some (x, at p xs (if length after == 0 then 0 else n + 1))
unfolding get_next_loop
next_of p xs before after x n e h =
    let len : length xs ≡ length before + suc (length after) =
      ap length e ∙ length-append before (x ∷ after) in
    let some_loop : (length xs == 0) ≡ false = ground (arith, len) in
    let at_end : leb (length xs) (n + 1) ≡ (length after == 0) = ground (arith, len) in
    let found : get_elem? xs n ≡ some x =
      ap₂ (λ (ys : List ℕ) (m : ℕ). get_elem? ys m) e h ∙ get_elem?-append before after x in
    rw (some_loop, found, at_end) refl

calls_step :
    (n x : ℕ) (p p' p'' : EventLoopThreadPool) (xs : List ℕ)
    → get_next_loop p ≡ some (x, p')
    → calls n p' ≡ some (xs, p'')
    → calls (suc n) p ≡ some (x ∷ xs, p'')
unfolding calls
calls_step n x p p' p'' xs e h = rw (e, h) refl

calls_none : (p : EventLoopThreadPool) → calls 0 p ≡ some ([], p)
unfolding calls
calls_none p = refl

to_next :
    (p : EventLoopThreadPool) (xs : List ℕ) (x n m : ℕ) (b : Bool)
    → (m == 0) ≡ b
    → get_next_loop (at p xs n) ≡ some (x, at p xs (if m == 0 then 0 else n + 1))
    → get_next_loop (at p xs n) ≡ some (x, at p xs (if b then 0 else n + 1))
to_next p xs x n m b e h = h ∙ ap (λ (c : Bool). some (x, at p xs (if c then 0 else n + 1))) e

round_from :
    (p : EventLoopThreadPool) (xs before after : List ℕ) (n : ℕ)
    → xs ≡ before ++ after
    → n ≡ length before
    → 0 < length after
    → calls (length after) (at p xs n) ≡ some (after, at p xs 0)
round_from p xs before [] n e h some_left = absurd (omega arith)
round_from p xs before (x ∷ []) n e h some_left =
    calls_step 0 x (at p xs n) (at p xs 0) (at p xs 0) []
      (to_next p xs x n 0 true refl (next_of p xs before [] x n e h)) (calls_none (at p xs 0))
round_from p xs before (x ∷ y ∷ ys) n e h some_left =
    let rest =
      round_from p xs (before ++ x ∷ []) (y ∷ ys) (n + 1)
        (e ∙ sym (append_assoc before (x ∷ []) (y ∷ ys)))
        (ground (arith, length-append before (x ∷ []))) (omega arith) in
    calls_step (length (y ∷ ys)) x (at p xs n) (at p xs (n + 1)) (at p xs 0) (y ∷ ys)
      (to_next p xs x n (length (y ∷ ys)) false (ground arith)
        (next_of p xs before (y ∷ ys) x n e h))
      rest

rounds_from :
    (m : ℕ) (p : EventLoopThreadPool) (xs : List ℕ)
    → 0 < length xs
    → rounds m (at p xs 0) ≡ some (replicate m xs, at p xs 0)
unfolding rounds
rounds_from zero p xs h = refl
rounds_from (suc m) p xs h = rw (round_from p xs [] xs 0 refl refl h, rounds_from m p xs h) refl

length-start_threads :
    (to_string : ℕ → Bytes) (start_loop : Bytes → ℕ) (name : Bytes) (i n : ℕ)
    → length (start_threads to_string start_loop name i n) ≡ n
unfolding start_threads
length-start_threads to_string start_loop name i zero = refl
length-start_threads to_string start_loop name i (suc n) =
    ap suc (length-start_threads to_string start_loop name (suc i) n)

base_lem :
    (p : EventLoopThreadPool)
    → length p.loops ≡ 0
    → get_next_loop (at p p.loops 0) ≡ some (p.base_loop, at p p.loops 0)
unfolding get_next_loop
base_lem p h = rw h refl

-- `start` of a fresh pool for n threads fails no assertion, and has a loop for each thread. Then, if n is
-- not zero, `getNextLoop` gives the loops in turn: as many calls as there are loops give each of
-- them once, in order, and leave the pool as it was, round after round; if n is zero, it gives the
-- base loop each time.
pub start-rounds :
    (to_string : ℕ → Bytes) (start_loop : Bytes → ℕ) (base : ℕ) (name : Bytes) (n m : ℕ)
    → (p : EventLoopThreadPool) × (start to_string start_loop (set_thread_num n (new base name))
        ≡ some p)
      × (length p.loops ≡ n)
      × (0 < n → rounds m p ≡ some (replicate m p.loops, p))
      × (n ≡ 0 → get_next_loop p ≡ some (base, p))
unfolding start set_thread_num new
start-rounds to_string start_loop base name n m =
    let xs = start_threads to_string start_loop name 0 n in
    let len = length-start_threads to_string start_loop name 0 n in
    let p = at (set_thread_num n (new base name)) xs 0 in
    (p, refl, len, (λ h. rounds_from m p xs (omega (arith, len, h))), λ h. base_lem p (len ∙ h))
