-- ===== src/EventLoop/Awake.antt =====
-- No lost wakeup.
use agora_im.Shared.{
  ℕ, ◌+◌, ◌<◌, ◌≡◌, ap, refl, Bool, true, false, List, [], ◌∷◌, Bool-cases, inl, inr, arith, length,
}
use agora_im.EventLoop.{Functor, wakeup, handle_read, push, queue_in_loop, quit_loop, take_pending}
use agora_im.EventLoop.Threads.{
  Pc, testing, polling, dispatching, starting, calling, stopped, System, Step, own, other, Reach,
  entered, later, goes_on, stops, reports, reports_wakeup, handler_queues, handler_runs,
  handler_quits, handlers_end, swaps, functor_queues, functor_runs, functor_quits, next_functor,
  batch_ends, other_pushes, other_quits, other_wakes,
}

-- Past the swap, what is put in the queue waits for the next poll.
abbrev past_swap : Pc → Bool
past_swap (calling cs fs) = true
past_swap testing = true
past_swap polling = true
past_swap (dispatching cs) = false
past_swap starting = false
past_swap stopped = false

abbrev in_batch : Pc → Bool
in_batch (calling cs fs) = true
in_batch testing = false
in_batch polling = false
in_batch (dispatching cs) = false
in_batch starting = false
in_batch stopped = false

abbrev is_polling : Pc → Bool
is_polling (calling cs fs) = false
is_polling testing = false
is_polling polling = true
is_polling (dispatching cs) = false
is_polling starting = false
is_polling stopped = false

-- The eventfd is readable, or some thread is about to write to it.
abbrev stirs : System → ℕ
stirs s = s.loop.wakeups + s.posters

record IsAwake (s : System) : Type 0 where
  work : past_swap s.pc ≡ true → 0 < length s.loop.pending → 0 < stirs s
  quit : is_polling s.pc ≡ true → s.loop.quit ≡ true → 0 < stirs s
  flag : in_batch s.pc ≡ true → s.loop.calling ≡ true

Step-IsAwake : {s t : System} → Step s t → IsAwake s → IsAwake t
unfolding queue_in_loop quit_loop push wakeup handle_read take_pending
Step-IsAwake (own (goes_on e q)) a = ground arith
Step-IsAwake (own (stops e q)) a = ground arith
Step-IsAwake (own (reports cs e)) a = ground arith
Step-IsAwake (own (reports_wakeup cs e)) a = ground arith
Step-IsAwake (own (handler_queues f cs e)) a = ground arith
Step-IsAwake (own (handler_runs f cs e)) a = ground arith
Step-IsAwake (own (handler_quits cs e)) a = ground arith
Step-IsAwake (own (handlers_end e)) a = ground arith
Step-IsAwake (own (swaps e)) a = ground arith
Step-IsAwake (own (functor_queues f cs fs e)) a = ground arith
Step-IsAwake (own (functor_runs f cs fs e)) a = ground arith
Step-IsAwake (own (functor_quits cs fs e)) a = ground arith
Step-IsAwake (own (next_functor f fs e)) a = ground arith
Step-IsAwake (own (batch_ends e)) a = ground arith
Step-IsAwake (other (other_pushes f)) a = ground arith
Step-IsAwake (other other_quits) a = ground arith
Step-IsAwake (other (other_wakes n e)) a = ground arith

Reach-IsAwake : {s : System} → Reach s → IsAwake s
Reach-IsAwake (entered l e) = ground arith
Reach-IsAwake (later r st) = Step-IsAwake st (Reach-IsAwake r)

nothing_waits : (fs : List Functor) (n : ℕ) → (0 < length fs → 0 < n) → n ≡ 0 → fs ≡ []
nothing_waits [] n h z = refl
nothing_waits (f ∷ fs) n h z = absurd (omega (arith, h (omega arith)))

-- The loop never sleeps on work. Whatever other threads do and however their steps fall between
-- those of the loop: when the loop is inside `poll`, the eventfd is not readable, and no thread is
-- about to write to it, then no functor waits and nobody has asked the loop to quit. The queue must
-- be empty when `loop` is called.
pub Reach-awake :
    {s : System}
    → Reach s
    → s.pc ≡ polling
    → s.loop.wakeups ≡ 0
    → s.posters ≡ 0
    → (s.loop.pending ≡ []) × (s.loop.quit ≡ false)
Reach-awake {s} r p w z =
    let a = Reach-IsAwake r in
    let still : stirs s ≡ 0 = omega arith in
    (
      nothing_waits s.loop.pending (stirs s) (a.work (ap past_swap p)) still,
      elim (Bool-cases s.loop.quit) [
        | inl q ↦ absurd (omega (arith, a.quit (ap is_polling p) q, still))
        | inr q ↦ q
      ],
    )
