-- ===== src/EventLoop/Threads.antt =====
-- The loop's thread among others.
use agora_im.Shared.{ℕ, suc, ◌≡◌, true, false, List, [], ◌∷◌, ◌++◌}
use agora_im.EventLoop.{
  Calls, ends, queues, runs, quits, Functor, EventLoop, wakeup, handle_read, push, queue_in_loop,
  quit_loop, take_pending,
}

-- Where the loop's thread stands, with the calls that it has still to make.
pub data Pc : Type 0 where
  testing : Pc  -- the test of `while`
  polling : Pc  -- inside `poll`
  dispatching : Calls → Pc  -- the callbacks of the ready channels
  starting : Pc  -- before the swap of `doPendingFunctors`
  calling : Calls → List Functor → Pc  -- a functor's calls, and the rest of the batch
  stopped : Pc

-- `posters` counts the other threads that have changed the queue or `quit_`, and have not yet
-- written to the eventfd. `pushed` lists the names of all functors that were put in the queue, in
-- order, and `called` those that the loop took from it.
pub record System : Type 0 where
  pub loop : EventLoop
  pub pc : Pc
  pub posters : ℕ
  pub pushed : List ℕ
  pub called : List ℕ

abbrev pub names : List Functor → List ℕ
names [] = []
names (f ∷ fs) = f.name ∷ names fs

-- The calls of the first, and then those of the second.
abbrev pub before : Calls → Calls → Calls
before ends ds = ds
before (queues f body cs) ds = queues f body (before cs ds)
before (runs f body cs) ds = runs f body (before cs ds)
before (quits cs) ds = quits (before cs ds)

-- One call made in the loop's thread.
abbrev pub queued_here : Functor → System → Pc → System
queued_here f s p = record s {
  loop = queue_in_loop true f s.loop;
  pc = p;
  pushed = s.pushed ++ f.name ∷ [];
}

abbrev pub quit_here : System → Pc → System
quit_here s p = record s { loop = quit_loop true s.loop; pc = p }

-- A functor of the batch begins.
abbrev pub called_next : Functor → List Functor → System → System
called_next f fs s = record s { pc = calling f.body fs; called = s.called ++ f.name ∷ [] }

-- One step of the loop's thread. What `poll` reports, and when, is left open.
pub data Own (s : System) : System → Type 0 where
  goes_on : s.pc ≡ testing → s.loop.quit ≡ false → Own s (record s { pc = polling })
  stops :
      s.pc ≡ testing
      → s.loop.quit ≡ true
      → Own s (record s { pc = stopped; loop = record s.loop { looping = false } })
  reports : (cs : Calls) → s.pc ≡ polling → Own s (record s { pc = dispatching cs })
  reports_wakeup :
      (cs : Calls)
      → s.pc ≡ polling
      → Own s (record s { pc = dispatching cs; loop = handle_read s.loop })
  handler_queues :
      (f : Functor) (cs : Calls)
      → s.pc ≡ dispatching (queues f.name f.body cs)
      → Own s (queued_here f s (dispatching cs))
  handler_runs :
      (f : Functor) (cs : Calls)
      → s.pc ≡ dispatching (runs f.name f.body cs)
      → Own s (record s { pc = dispatching (before f.body cs) })
  handler_quits :
      (cs : Calls) → s.pc ≡ dispatching (quits cs) → Own s (quit_here s (dispatching cs))
  handlers_end : s.pc ≡ dispatching ends → Own s (record s { pc = starting })
  swaps :
      s.pc ≡ starting
      → Own s (record s { pc = calling ends s.loop.pending; loop = (take_pending s.loop).1 })
  functor_queues :
      (f : Functor) (cs : Calls) (fs : List Functor)
      → s.pc ≡ calling (queues f.name f.body cs) fs
      → Own s (queued_here f s (calling cs fs))
  functor_runs :
      (f : Functor) (cs : Calls) (fs : List Functor)
      → s.pc ≡ calling (runs f.name f.body cs) fs
      → Own s (record s { pc = calling (before f.body cs) fs })
  functor_quits :
      (cs : Calls) (fs : List Functor)
      → s.pc ≡ calling (quits cs) fs
      → Own s (quit_here s (calling cs fs))
  next_functor :
      (f : Functor) (fs : List Functor) → s.pc ≡ calling ends (f ∷ fs) → Own s (called_next f fs s)
  batch_ends :
      s.pc ≡ calling ends []
      → Own s (record s { pc = testing; loop = record s.loop { calling = false } })

-- One step of some other thread: `queueInLoop`, `runInLoop` and `quit` there change the loop first,
-- and wake it afterwards.
pub data Other (s : System) : System → Type 0 where
  other_pushes :
      (f : Functor)
      → Other s (record s {
        loop = push f s.loop;
        posters = suc s.posters;
        pushed = s.pushed ++ f.name ∷ [];
      })
  other_quits : Other s (record s { loop = record s.loop { quit = true }; posters = suc s.posters })
  other_wakes :
      (n : ℕ) → s.posters ≡ suc n → Other s (record s { loop = wakeup s.loop; posters = n })

pub data Step (s : System) : System → Type 0 where
  own : {t : System} → Own s t → Step s t
  other : {t : System} → Other s t → Step s t

-- `loop()` on a loop whose queue is empty.
pub data Reach : System → Type 0 where
  entered :
      (l : EventLoop)
      → l.pending ≡ []
      → Reach (record {
        loop = record l { looping = true; quit = false };
        pc = testing;
        posters = 0;
        pushed = [];
        called = [];
      })
  later : {s t : System} → Reach s → Step s t → Reach t

-- The rest of the batch that the loop has swapped out.
abbrev pub batch : Pc → List Functor
batch (calling cs fs) = fs
batch testing = []
batch polling = []
batch (dispatching cs) = []
batch starting = []
batch stopped = []
