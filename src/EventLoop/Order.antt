-- ===== src/EventLoop/Order.antt =====
-- Functors run in the order in which they were queued.
use agora_im.Shared.{
  ℕ, ◌≡◌, ◌∙◌, ap, refl, sym, true, List, [], ◌∷◌, ◌++◌, append-nil, append_assoc, arith,
}
use agora_im.EventLoop.{
  ends, Functor, EventLoop, wakeup, handle_read, push, queue_in_loop, quit_loop, take_pending,
}
use agora_im.EventLoop.Threads.{
  names, batch, Pc, testing, polling, dispatching, starting, calling, stopped, System, Step, own,
  other, Reach, entered, later, goes_on, stops, reports, reports_wakeup, handler_queues,
  handler_runs, handler_quits, handlers_end, swaps, functor_queues, functor_runs, functor_quits,
  next_functor, batch_ends, other_pushes, other_quits, other_wakes,
}

names-append : (fs gs : List Functor) → names (fs ++ gs) ≡ names fs ++ names gs
names-append [] gs = refl
names-append (f ∷ fs) gs = ap (λ z. f.name ∷ z) (names-append fs gs)

-- What was called, what the loop has swapped out, and what waits, make up what was pushed.
abbrev pub InOrder : System → Type 0
InOrder s = s.pushed ≡ s.called ++ (names (batch s.pc) ++ names s.loop.pending)

pushed_last :
    (xs ys : List ℕ) (zs : List Functor) (f : Functor) (all : List ℕ)
    → all ≡ xs ++ (ys ++ names zs)
    → all ++ f.name ∷ [] ≡ xs ++ (ys ++ names (zs ++ f ∷ []))
pushed_last xs ys zs f all e = simp (e, names-append, append_assoc)

same_batch :
    (s : System) (p : Pc)
    → batch s.pc ≡ batch p
    → InOrder s
    → s.pushed ≡ s.called ++ (names (batch p) ++ names s.loop.pending)
same_batch s p e o = o ∙ ap (λ b. s.called ++ (names b ++ names s.loop.pending)) e

queue_pending :
    (f : Functor) (l : EventLoop) → (queue_in_loop true f l).pending ≡ l.pending ++ f ∷ []
unfolding queue_in_loop push wakeup
queue_pending f l = ground arith

Step-InOrder : {s t : System} → Step s t → InOrder s → InOrder t
unfolding quit_loop push wakeup handle_read take_pending
Step-InOrder {s} (own (goes_on e q)) o = same_batch s polling (ap batch e) o
Step-InOrder {s} (own (stops e q)) o = same_batch s stopped (ap batch e) o
Step-InOrder {s} (own (reports cs e)) o = same_batch s (dispatching cs) (ap batch e) o
Step-InOrder {s} (own (reports_wakeup cs e)) o = same_batch s (dispatching cs) (ap batch e) o
Step-InOrder {s} (own (handler_queues f cs e)) o = rw (queue_pending f s.loop) (
    pushed_last s.called [] s.loop.pending f s.pushed
      (same_batch s (dispatching cs) (ap batch e) o))
Step-InOrder {s} (own (handler_runs f cs e)) o = same_batch s (dispatching cs) (ap batch e) o
Step-InOrder {s} (own (handler_quits cs e)) o = same_batch s (dispatching cs) (ap batch e) o
Step-InOrder {s} (own (handlers_end e)) o = same_batch s starting (ap batch e) o
Step-InOrder {s} (own (swaps e)) o =
    same_batch s starting (ap batch e) o
    ∙ ap (λ z. s.called ++ z) (sym (append-nil (names s.loop.pending)))
Step-InOrder {s} (own (functor_queues f cs fs e)) o = rw (queue_pending f s.loop) (
    pushed_last s.called (names fs) s.loop.pending f s.pushed
      (same_batch s (calling cs fs) (ap batch e) o))
Step-InOrder {s} (own (functor_runs f cs fs e)) o = same_batch s (calling cs fs) (ap batch e) o
Step-InOrder {s} (own (functor_quits cs fs e)) o = same_batch s (calling cs fs) (ap batch e) o
Step-InOrder {s} (own (next_functor f fs e)) o =
    same_batch s (calling ends (f ∷ fs)) (ap batch e) o
    ∙ sym (append_assoc s.called (f.name ∷ []) (names fs ++ names s.loop.pending))
Step-InOrder {s} (own (batch_ends e)) o = same_batch s testing (ap batch e) o
Step-InOrder {s} (other (other_pushes f)) o =
    pushed_last s.called (names (batch s.pc)) s.loop.pending f s.pushed o
Step-InOrder {s} (other other_quits) o = o
Step-InOrder {s} (other (other_wakes n e)) o = o

-- Functors are called in the order in which they were put in the queue, by whichever thread, and
-- each one once: at any time, those that were called, those that the loop has swapped out, and those
-- that wait make up all that were put in, in order. The queue must be empty when `loop` is called.
pub Reach-InOrder : {s : System} → Reach s → InOrder s
Reach-InOrder (entered l e) = rw e
Reach-InOrder (later r st) = Step-InOrder st (Reach-InOrder r)
