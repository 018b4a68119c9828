-- ===== src/TimerQueue/Expired.antt =====
-- `getExpired`: the timers that are due.
use agora_im.Shared.{
  ℕ, ◌≤◌, ◌<◌, ◌≡◌, refl, sym, arith, true, false, ◌++◌, All, All-zip, All-append_left,
  All-append_right,
}
use agora_im.TimerQueue.{Entry, TimerQueue, get_expired, split_expired, entry_lt, max_address}
use agora_im.TimerQueue.Order.{Sorted, split_expired-append, split_expired-All}
use agora_im.TimerQueue.Heap.{Alive}

due :
    (e : Entry) (now : ℕ)
    → e.timer < max_address
    → entry_lt e (record { time = now; timer = max_address }) ≡ true
    → e.time ≤ now
unfolding entry_lt
due e now h q = ground arith

not_due :
    (e : Entry) (now : ℕ)
    → e.timer < max_address
    → entry_lt e (record { time = now; timer = max_address }) ≡ false
    → now < e.time
unfolding entry_lt
not_due e now h q = ground arith

-- `getExpired` on a set that is sorted, with its timers alive, takes off the front exactly the
-- timers whose time has come, those due just now included, and leaves the later ones, in order;
-- nothing else of the queue changes.
pub get_expired_lem :
    (q : TimerQueue) (now : ℕ)
    → Sorted q.timers
    → All (Alive q.heap) q.timers
    → let (expired, q') = get_expired q now in
      (q.timers ≡ expired ++ q'.timers)
      × All (λ (e : Entry). e.time ≤ now) expired
      × All (λ (e : Entry). now < e.time) q'.timers
      × (q' ≡ record q { timers = q'.timers })
unfolding get_expired
get_expired_lem q now s l =
    let sentry : Entry = record { time = now; timer = max_address } in
    let p = split_expired sentry q.timers in
    let cut = split_expired-append sentry q.timers in
    let (before, after) = split_expired-All sentry q.timers s in
    let live : All (Alive q.heap) (p.0 ++ p.1) = rw cut l in
    (
      sym cut,
      All-zip (Alive q.heap) (λ (e : Entry). entry_lt e sentry ≡ true) (λ (e : Entry). e.time ≤ now)
          (λ e a b. due e now a.3 b) p.0 (All-append_left (Alive q.heap) p.0 p.1 live) before,
      All-zip (Alive q.heap) (λ (e : Entry). entry_lt e sentry ≡ false)
          (λ (e : Entry). now < e.time) (λ e a b. not_due e now a.3 b) p.1
          (All-append_right (Alive q.heap) p.0 p.1 live) after,
      refl,
    )
