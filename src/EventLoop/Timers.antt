-- ===== src/EventLoop/Timers.antt =====
-- src/net/event_loop.cpp: the timers of a loop, in its thread. The clock is an argument.
use agora_im.Shared.{ℕ, ◌+◌, ◌≡◌, refl, Bool, false, Option, some}
use agora_im.Shared.{Safe, Safe-map, Has, Result}
use agora_im.TimerQueue.{
  TimerQueue, TimerId, Timer, Entry, Heap, Interval, add_time, add_timer, cancel_in_loop, repeat,
}
use agora_im.TimerQueue.Valid.{IsValid, address_id}
use agora_im.TimerQueue.Running.{Allocates, new_timer, add_timer-Safe}

-- The interval 0.0.
abbrev pub never : Interval
never = record { positive = false; micros = 0 }

module _ (new : Heap → Option ℕ) where
  unfoldable pub run_at : (time : ℕ) → (callback : ℕ) → TimerQueue → Result (TimerId × TimerQueue)
  run_at time callback q = add_timer new q callback time never

  unfoldable pub run_after :
      (now : ℕ) → Interval → (callback : ℕ) → TimerQueue → Result (TimerId × TimerQueue)
  run_after now delay callback q = add_timer new q callback (add_time now delay) never

  unfoldable pub run_every :
      (now : ℕ) → Interval → (callback : ℕ) → TimerQueue → Result (TimerId × TimerQueue)
  run_every now interval callback q = add_timer new q callback (add_time now interval) interval

unfoldable pub cancel : TimerId → TimerQueue → Result TimerQueue
cancel id q = cancel_in_loop q id

-- Just this timer was added, and it repeats or not.
pub record Adds (time callback : ℕ) (again : Bool) (q : TimerQueue) (r : TimerId × TimerQueue)
    : Type 0 where
  pub valid : IsValid r.1
  pub timer :
      (a : ℕ) × (t : Timer) × (r.1.heap a ≡ some t)
      × (t.callback ≡ callback)
      × (repeat t ≡ again)
      × Has (record { time = time; timer = a }) r.1.timers
  pub kept : (e : Entry) → Has e q.timers → Has e r.1.timers

module _ (new : Heap → Option ℕ) (alloc : Allocates new) (q : TimerQueue) (v : IsValid q) where
  adds :
      (time callback : ℕ) (i : Interval)
      → Safe (Adds time callback i.positive q) (add_timer new q callback time i)
  unfolding repeat
  adds time callback i =
      Safe-map _ _ (add_timer new q callback time i) (λ r h. placed r h)
        (add_timer-Safe new q callback time i alloc v)
    where
      placed :
          (r : TimerId × TimerQueue)
          → IsValid r.1
            × ((a : ℕ) × (r.0 ≡ address_id a (q.created + 1))
                × (r.1.heap a ≡ some (new_timer q callback time i))
                × Has (record { time = time; timer = a }) r.1.timers)
            × ((e : Entry) → Has e q.timers → Has e r.1.timers)
          → Adds time callback i.positive q r
      placed r (v', (a, e, m, m'), kept) = record {
        valid = v';
        timer = (a, new_timer q callback time i, m, refl, refl, m');
        kept = kept;
      }

  -- `runAfter` and `runEvery` add a timer one delay from now and keep all others, without use of
  -- freed memory; the first never repeats, and the second does if its interval is positive. `new`
  -- must give addresses that are free, and the queue keep its invariant.
  pub run_after-Adds :
      (now callback : ℕ) (i : Interval)
      → Safe (Adds (now + i.micros) callback false q) (run_after new now i callback q)
        × Safe (Adds (now + i.micros) callback i.positive q) (run_every new now i callback q)
  unfolding run_after run_every add_time
  run_after-Adds now callback i =
      (adds (now + i.micros) callback never, adds (now + i.micros) callback i)
