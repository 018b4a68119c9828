-- ===== src/EventLoopThread.antt =====
-- include/agora/net/event_loop_thread.h and src/net/event_loop_thread.cpp: the thread of a loop, and its
-- owner, which starts it and joins it, as interleaved steps.
--
-- `pointer` says that `loop_` is not null, and `quit` is the flag of the loop. A step holds the mutex
-- where the source does.
pub mod Alive
use agora_im.Shared.{
  ℕ, zero, suc, ◌+◌, ◌-◌, ◌*◌, ◌/◌, ◌%◌, ◌≤◌, ◌<◌, ◌≡◌, ◌≢◌, ◌∙◌, ◌⊎◌, ◌↔◌, ap, refl, sym, Bool,
  true, false, not, ◌&&◌, ◌||◌, Option, none, some, List, [], ◌∷◌, ◌++◌, append-nil, append_assoc,
  ltb, leb, ◌==◌, if◌then◌else◌, Bool-cases, Option-cases, inl, inr, arith, Bytes, codes, length,
  take, drop, length-append, eq_bytes, eq_bytes_iff, Free, ==_iff,
}

-- Where the thread is: `ready` has set the pointer, `looping` is inside `loop()`, behind its
-- `quit_ = false`, and `leaving` has left it.
pub data Worker : Type 0 where
  unborn building ready looping leaving exited : Worker

-- Where its owner is: in `startLoop` it waits for the pointer, and in the destructor it joins.
pub data Owner : Type 0 where
  idle waiting running joining joined : Owner

pub record EventLoopThread : Type 0 where
  pub owner : Owner
  pub worker : Worker
  pub started : Bool
  pub pointer : Bool
  pub quit : Bool

unfoldable pub new : EventLoopThread
new = record { owner = idle; worker = unborn; started = false; pointer = false; quit = false }

pub data Step (s : EventLoopThread) : EventLoopThread → Type 0 where
  starts :
      s.owner ≡ idle
      → s.started ≡ false
      → Step s (record s { owner = waiting; started = true; worker = building })
  publishes : s.worker ≡ building → Step s (record s { worker = ready; pointer = true })
  returns : s.owner ≡ waiting → s.pointer ≡ true → Step s (record s { owner = running })
  enters : s.worker ≡ ready → Step s (record s { worker = looping; quit = false })
  quits_itself : s.worker ≡ looping → Step s (record s { quit = true })
  leaves : s.worker ≡ looping → s.quit ≡ true → Step s (record s { worker = leaving })
  clears : s.worker ≡ leaving → Step s (record s { worker = exited; pointer = false })
  destroys_idle : s.owner ≡ idle → Step s (record s { owner = joined })
  destroys :
      s.owner ≡ running
      → Step s (record s { owner = joining; quit = if s.pointer then true else s.quit })
  joins : s.owner ≡ joining → s.worker ≡ exited → Step s (record s { owner = joined })

pub data Reach : EventLoopThread → Type 0 where
  first : Reach new
  later : {s t : EventLoopThread} → Reach s → Step s t → Reach t
