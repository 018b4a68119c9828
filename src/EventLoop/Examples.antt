-- ===== src/EventLoop/Examples.antt =====
-- A loop at work.
use agora_im.Shared.{[], Bytes, codes}
use agora_im.Logger
use agora_im.Logger.{Place, no_tid}
use agora_im.Sockets.{Process, returns}
use agora_im.Sockets.Ends.{Ends}
use agora_im.EPollPoller
use agora_im.EventLoop.OwnThread.{Caller, update_channel, remove_channel, channels-Ends}
use agora_im.Shared.{ℕ, ◌<◌, ◌≡◌, ◌≢◌, refl, some, none, arith}
use agora_im.Channel.{read_event}
use agora_im.EPollPoller.{Poller}
use agora_im.EPollPoller.Simulated.{epoll}
use agora_im.EventLoop.Opening.{Channels, register, unregister, register-unregister}
use agora_im.Shared.{ℕ, ◌≡◌, refl, Bool, true, false, List, [], ◌∷◌}
use agora_im.EventLoop
use agora_im.EventLoop.{
  Calls, ends, queues, runs, quits, Functor, EventLoop, do_pending_functors, push, wakeup,
  handle_read, queue_in_loop, take_pending,
}
use agora_im.EventLoop.Threads.{
  polling, starting, testing, calling, System, Own, own, other, Reach, entered, later, goes_on,
  reports_wakeup, handlers_end, swaps, functor_queues, next_functor, batch_ends, other_pushes,
  other_wakes,
}
use agora_im.EventLoop.Awake.{Reach-awake}
use agora_im.EventLoop.Order.{InOrder, Reach-InOrder}
use agora_im.EventLoop.Progress.{Run, here, runs_on, meanwhile, pending_called}

-- It queues another functor, which does nothing.
abbrev first : Functor
first = record { name = 1; body = queues 2 ends ends }

abbrev second : Functor
second = record { name = 2; body = ends }

abbrev looping_with : (busy : Bool) → List Functor → ℕ → EventLoop
looping_with busy fs n = record {
  looping = true;
  quit = false;
  calling = busy;
  pending = fs;
  wakeups = n;
}

-- Another thread has queued the first while the loop polled, and woken the loop.
abbrev fetched : System
fetched = record {
  loop = looping_with false (first ∷ []) 0;
  pc = starting;
  posters = 0;
  pushed = 1 ∷ [];
  called = [];
}

fetched-Reach : Reach fetched
unfolding EventLoop.new push wakeup handle_read
fetched-Reach =
    let r₀ = entered EventLoop.new refl in
    let r₁ = later r₀ (own (goes_on refl refl)) in
    let r₂ = later r₁ (other (other_pushes first)) in
    let r₃ = later r₂ (other (other_wakes 0 refl)) in
    let r₄ = later r₃ (own (reports_wakeup ends refl)) in later r₄ (own (handlers_end refl))

-- The first has run and queued the second.
abbrev half : System
half = record {
  loop = looping_with true (second ∷ []) 1;
  pc = calling ends [];
  posters = 0;
  pushed = 1 ∷ 2 ∷ [];
  called = 1 ∷ [];
}

half-Reach : Reach half
unfolding queue_in_loop take_pending push wakeup
half-Reach =
    let r₁ = later fetched-Reach (own (swaps refl)) in
    let r₂ = later r₁ (own (next_functor first [] refl)) in
    later r₂ (own (functor_queues second ends [] refl))

-- The second has run too, and the loop polls.
abbrev asleep : System
asleep = record {
  loop = looping_with false [] 0;
  pc = polling;
  posters = 0;
  pushed = 1 ∷ 2 ∷ [];
  called = 1 ∷ 2 ∷ [];
}

asleep-Reach : Reach asleep
unfolding take_pending handle_read
asleep-Reach =
    let r₁ = later half-Reach (own (batch_ends refl)) in
    let r₂ = later r₁ (own (goes_on refl refl)) in
    let r₃ = later r₂ (own (reports_wakeup ends refl)) in
    let r₄ = later r₃ (own (handlers_end refl)) in
    let r₅ = later r₄ (own (swaps refl)) in
    let r₆ = later r₅ (own (next_functor second [] refl)) in
    let r₇ = later r₆ (own (batch_ends refl)) in later r₇ (own (goes_on refl refl))

Reach-awake_example : (asleep.loop.pending ≡ []) × (asleep.loop.quit ≡ false)
Reach-awake_example = Reach-awake asleep-Reach refl refl refl

Reach-InOrder_example : InOrder half
Reach-InOrder_example = Reach-InOrder half-Reach

-- The batch that was fetched is over; meanwhile another thread has queued the second, too.
abbrev swapped : System
swapped = record {
  loop = looping_with true [] 0;
  pc = calling ends (first ∷ []);
  posters = 0;
  pushed = 1 ∷ [];
  called = [];
}

abbrev over : System
over = record {
  loop = looping_with false (second ∷ second ∷ []) 1;
  pc = testing;
  posters = 1;
  pushed = 1 ∷ 2 ∷ 2 ∷ [];
  called = 1 ∷ [];
}

fetched-swapped : Own fetched swapped
unfolding take_pending
fetched-swapped = swaps refl

swapped-over : Run swapped 3 over
unfolding queue_in_loop push wakeup
swapped-over =
    let r₁ = meanwhile here (other_pushes second) in
    let r₂ = runs_on r₁ (next_functor first [] refl) in
    let r₃ = runs_on r₂ (functor_queues second ends [] refl) in runs_on r₃ (batch_ends refl)

pending_called_example :
    (◌≡◌ {A = List ℕ} (1 ∷ []) (1 ∷ []))
    × (◌<◌ 3 3 → (u : System) × Own over u)
    × (◌≡◌ {A = ℕ} 3 3 → (testing ≡ testing) × (◌≡◌ {A = List ℕ} (1 ∷ []) (1 ∷ [])))
pending_called_example =
    pending_called fetched swapped refl fetched-swapped swapped-over (omega arith)

-- No descriptor is watched.
abbrev unused : Poller epoll
unused = record { kernel = λ fd. none; channels = λ fd. none; errors = 0 }

abbrev opened : Channels epoll
opened = register {k = epoll} 64 80 5 6 unused

register-unregister_example :
    (opened.poller.kernel 5 ≡ some read_event)
    × (opened.poller.kernel 6 ≡ some read_event)
    × ((unregister {k = epoll} 64 80 opened).poller.kernel 5 ≡ none)
    × ((unregister {k = epoll} 64 80 opened).poller.kernel 6 ≡ none)
    × ((unregister {k = epoll} 64 80 opened).poller.errors ≡ 0)
    × ((other : ℕ)
        → other ≢ 5
        → other ≢ 6
        → (unregister {k = epoll} 64 80 opened).poller.kernel other ≡ none)
register-unregister_example =
    register-unregister {k = epoll} 64 80 5 6 unused (omega arith) refl refl

-- Another thread, which has not asked for its id yet.
abbrev other_thread : Caller
other_thread = record { get_id = 2; cache = no_tid }

abbrev process : Process
process = record { logger = Logger.new; calls = [] }

abbrev text : ℕ → Bytes
text n = codes "now"

abbrev place : Place
place = record { clock = 0; thread = 2; file = codes "event_loop.cpp"; line = 96 }

channels-Ends_example :
    (◌≡◌ {A = ℕ} 1 2
      → (update_channel text text text place {k = epoll} 1 other_thread 64 opened.wakeup
            opened.poller process
          ≡ returns (EPollPoller.update_channel {k = epoll} 64 opened.wakeup opened.poller) process)
        × (remove_channel text text text place {k = epoll} 1 other_thread opened.wakeup
              opened.poller process
            ≡ returns (EPollPoller.remove_channel {k = epoll} opened.wakeup opened.poller) process))
    × (◌≢◌ {A = ℕ} 1 2
        → Ends text text text place
            (λ r q. ⊥)
            (update_channel text text text place {k = epoll} 1 other_thread 64 opened.wakeup
              opened.poller process)
          × Ends text text text place
              (λ r q. ⊥)
              (remove_channel text text text place {k = epoll} 1 other_thread opened.wakeup
                opened.poller process))
channels-Ends_example =
    channels-Ends text text text place {k = epoll} 1 other_thread 64 opened.wakeup opened.poller
      process (λ e. absurd (cc))
