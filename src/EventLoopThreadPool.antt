-- ===== src/EventLoopThreadPool.antt =====
-- include/agora/net/event_loop_thread_pool.h and src/net/event_loop_thread_pool.cpp: the loops of a
-- server and the choice among them.
--
-- A loop stands for its address. `std::to_string`, and the start of a thread, which gives its loop,
-- are arguments. `none` is a failed assertion, or an index out of range.
pub mod Rounds
mod Examples
use agora_im.Shared.{
  ℕ, zero, suc, ◌+◌, ◌-◌, ◌*◌, ◌/◌, ◌%◌, ◌≤◌, ◌<◌, ◌≡◌, ◌≢◌, ◌∙◌, ◌⊎◌, ◌↔◌, ap, refl, sym, Bool,
  true, false, not, ◌&&◌, ◌||◌, Option, none, some, List, [], ◌∷◌, ◌++◌, append-nil, append_assoc,
  ltb, leb, ◌==◌, if◌then◌else◌, Bool-cases, Option-cases, inl, inr, arith, Bytes, codes, length,
  get_elem?, take, drop, length-append, eq_bytes, eq_bytes_iff, Free, ==_iff,
}
use agora_im.Shared.Assertions.{◌>>=◌}

pub record EventLoopThreadPool : Type 0 where
  pub base_loop : ℕ
  pub name : Bytes
  pub started : Bool
  pub num_threads : ℕ
  pub next : ℕ
  pub loops : List ℕ

unfoldable pub new : ℕ → Bytes → EventLoopThreadPool
new base name = record {
  base_loop = base;
  name = name;
  started = false;
  num_threads = 0;
  next = 0;
  loops = [];
}

unfoldable pub set_thread_num : ℕ → EventLoopThreadPool → EventLoopThreadPool
set_thread_num n p = record p { num_threads = n }

module _ (to_string : ℕ → Bytes) (start_loop : Bytes → ℕ) where
  -- The loops of the threads from number `i` on.
  unfoldable pub start_threads : Bytes → (i n : ℕ) → List ℕ
  start_threads name i zero = []
  start_threads name i (suc n) =
      start_loop (name ++ b'-' ∷ to_string i) ∷ start_threads name (suc i) n

  unfoldable pub start : EventLoopThreadPool → Option EventLoopThreadPool
  start p =
      if p.started
      then none
      else some
          (record p { started = true; loops = p.loops ++ start_threads p.name 0 p.num_threads })

-- `getNextLoop`.
unfoldable pub get_next_loop : EventLoopThreadPool → Option (ℕ × EventLoopThreadPool)
get_next_loop p =
    if p.started
    then if length p.loops == 0 then some (p.base_loop, p) else (do
      loop ← get_elem? p.loops p.next
      some (loop, record p { next = if leb (length p.loops) (p.next + 1) then 0 else p.next + 1 }))
    else none
