-- ===== src/EventLoop.antt =====
-- include/agora/net/event_loop.h and src/net/event_loop.cpp: the loop, its queue of functors, and the
-- eventfd that wakes it.
--
-- A functor is a number and the calls of the loop that it makes. `wakeups` is the counter of the
-- eventfd, which makes it readable when it is not zero. Nothing here reads the clock.
pub mod Batch
pub mod Opening
pub mod OwnThread
pub mod Threads
pub mod Awake
pub mod Order
pub mod Progress
pub mod Timers
mod Examples
use agora_im.Shared.{
  ℕ, zero, suc, ◌+◌, ◌-◌, ◌*◌, ◌/◌, ◌%◌, ◌≤◌, ◌<◌, ◌≡◌, ◌≢◌, ◌∙◌, ◌⊎◌, ◌↔◌, ap, refl, sym, Bool,
  true, false, not, ◌&&◌, ◌||◌, Option, none, some, List, [], ◌∷◌, ◌++◌, append-nil, append_assoc,
  ltb, leb, ◌==◌, if◌then◌else◌, Bool-cases, Option-cases, inl, inr, arith, Bytes, codes, length,
  take, drop, length-append, eq_bytes, eq_bytes_iff, Free,
}

-- What code in the loop's thread asks of the loop: `queueInLoop`, `runInLoop` and `quit`, in order. The
-- calls of a functor stand with it.
pub data Calls : Type 0 where
  ends : Calls
  queues : (functor : ℕ) → (body : Calls) → Calls → Calls
  runs : (functor : ℕ) → (body : Calls) → Calls → Calls
  quits : Calls → Calls

pub record Functor : Type 0 where
  pub name : ℕ
  pub body : Calls

pub record EventLoop : Type 0 where
  pub looping : Bool
  pub quit : Bool
  pub calling : Bool
  pub pending : List Functor
  pub wakeups : ℕ

unfoldable pub new : EventLoop
new = record { looping = false; quit = false; calling = false; pending = []; wakeups = 0 }

unfoldable pub wakeup : EventLoop → EventLoop
wakeup l = record l { wakeups = l.wakeups + 1 }

-- `handleRead`: a read of an eventfd takes the whole count.
unfoldable pub handle_read : EventLoop → EventLoop
handle_read l = record l { wakeups = 0 }

unfoldable pub push : Functor → EventLoop → EventLoop
push f l = record l { pending = l.pending ++ f ∷ [] }

unfoldable pub queue_in_loop : (in_thread : Bool) → Functor → EventLoop → EventLoop
unfolding push wakeup
queue_in_loop in_thread f l =
    let l' = push f l in if not in_thread || l'.calling then wakeup l' else l'

unfoldable pub quit_loop : (in_thread : Bool) → EventLoop → EventLoop
unfolding wakeup
quit_loop in_thread l =
    let l' : EventLoop = record l { quit = true } in if in_thread then l' else wakeup l'

-- The calls made in the loop's thread: `runInLoop` runs its functor at once. With them, the functors
-- that were run, in order.
unfoldable pub run_calls : Calls → EventLoop → List ℕ × EventLoop
run_calls ends l = ([], l)
run_calls (queues f body cs) l =
    run_calls cs (queue_in_loop true (record { name = f; body = body }) l)
run_calls (runs f body cs) l =
    let (ran, l') = run_calls body l in let (ran', l'') = run_calls cs l' in (f ∷ ran ++ ran', l'')
run_calls (quits cs) l = run_calls cs (quit_loop true l)

unfoldable pub run_functors : List Functor → EventLoop → List ℕ × EventLoop
run_functors [] l = ([], l)
run_functors (f ∷ fs) l =
    let (ran, l') = run_calls f.body l in
    let (ran', l'') = run_functors fs l' in (f.name ∷ ran ++ ran', l'')

-- `functors.swap(pendingFunctors_)`, with the flag that is set before it.
unfoldable pub take_pending : EventLoop → List Functor × EventLoop
take_pending l = (l.pending, record l { calling = true; pending = [] })

unfoldable pub do_pending_functors : EventLoop → List ℕ × EventLoop
do_pending_functors l =
    let (functors, l') = take_pending l in
    let (ran, l'') = run_functors functors l' in (ran, record l'' { calling = false })

-- What `poll` reports, with what the callbacks of the ready channels do: whether the eventfd is
-- among them, and the calls of the others.
pub record Ready : Type 0 where
  pub woken : Bool
  pub calls : Calls

unfoldable pub dispatch : Ready → EventLoop → List ℕ × EventLoop
dispatch r l = run_calls r.calls (if r.woken then handle_read l else l)

-- The body of the `while` in `loop`.
unfoldable pub round_of : Ready → EventLoop → List ℕ × EventLoop
round_of r l =
    let (ran, l') = dispatch r l in let (ran', l'') = do_pending_functors l' in (ran ++ ran', l'')

-- The loop itself over what the polls report; `none` when it still waits for the next report.
unfoldable pub rounds : List Ready → EventLoop → Option (List ℕ × EventLoop)
rounds [] l = if l.quit then some ([], record l { looping = false }) else none
rounds (r ∷ rs) l =
    let rest : Option (List ℕ × EventLoop) = elim (rounds rs (round_of r l).1) [
      | none ↦ none
      | some (ran, l') ↦ some ((round_of r l).0 ++ ran, l')
    ] in
    if l.quit then some ([], record l { looping = false }) else rest

-- `loop`: `none` also when its assertion fails.
unfoldable pub loop : List Ready → EventLoop → Option (List ℕ × EventLoop)
loop rs l = if l.looping then none else rounds rs (record l { looping = true; quit = false })
