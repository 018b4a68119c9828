-- ===== src/TimerQueue/Callbacks.antt =====
-- `handleRead`: the expired timers run, whatever their callbacks add or cancel.
use agora_im.Shared.{
  ℕ, ◌≡◌, ◌≢◌, refl, ap, Option, none, some, List, [], ◌∷◌, ◌++◌, All, Has, All-Has,
  All-append_left, All-append_right, inl, inr, ok, Safe, Safe-bind, Safe-map,
}
use agora_im.TimerQueue.{
  Entry, TimerId, TimerQueue, Heap, Call, adds, cancels, call, calls, add_timer, cancel_in_loop,
  run_all, handle_read, get_expired, reset,
}
use agora_im.TimerQueue.Order.{Sorted, Sorted-append_right}
use agora_im.TimerQueue.Heap.{Alive, Live, Fresh, Fresh-sorted, Alive-Live}
use agora_im.TimerQueue.Valid.{IsValid, load_lem}
use agora_im.TimerQueue.Expired.{get_expired_lem}
use agora_im.TimerQueue.Running.{
  Running, Distinct, Allocates, add_timer-Running, cancel_in_loop-Running,
}
use agora_im.TimerQueue.Reset.{reset-Safe}

-- The two parts of an ordered set share no timer.
parts-apart :
    (h : Heap) (es fs : List Entry)
    → Sorted (es ++ fs)
    → All (Alive h) (es ++ fs)
    → Distinct es × All (λ (e : Entry). Fresh e.timer fs) es
parts-apart h [] fs s a = (tt, tt)
parts-apart h (e ∷ es) fs s a =
    let f = Fresh-sorted h e (es ++ fs) a.0 a.1 s.0 in
    let (d, p) = parts-apart h es fs s.1 a.1 in
    (
      (All-append_left (λ (g : Entry). g.timer ≢ e.timer) es fs f, d),
      (All-append_right (λ (g : Entry). g.timer ≢ e.timer) es fs f, p),
    )

pub get_expired-Running :
    (q : TimerQueue) (now : ℕ)
    → IsValid q
    → Distinct (get_expired q now).0 × Running (get_expired q now).0 (get_expired q now).1
get_expired-Running q now v =
    let (cut, _, _, same) = get_expired_lem q now v.ordered.sorted v.ordered.alive in
    parts (get_expired q now).0 (get_expired q now).1 cut same
  where
    parts :
        (es : List Entry) (q' : TimerQueue)
        → q.timers ≡ es ++ q'.timers
        → q' ≡ record q { timers = q'.timers }
        → Distinct es × Running es q'
    parts es q' cut same =
        let s : Sorted (es ++ q'.timers) = rw cut at v.ordered.sorted in
        let a : All (Alive q.heap) (es ++ q'.timers) = rw cut at v.ordered.alive in
        let h : q'.heap ≡ q.heap = ap (λ (p : TimerQueue). p.heap) same in
        let (d, p) = parts-apart q.heap es q'.timers s a in
        (
          d,
          record {
            ordered = record {
              sorted = Sorted-append_right es q'.timers s;
              alive = rw h (All-append_right (Alive q.heap) es q'.timers a);
            };
            live = rw h (Alive-Live q.heap es (All-append_left (Alive q.heap) es q'.timers a));
            apart = p;
          },
        )

module _ (new : Heap → Option ℕ) (alloc : Allocates new) (es : List Entry) where
  call-Running : (q : TimerQueue) (c : Call) → Running es q → Safe (Running es) (call new q c)
  unfolding call
  call-Running q (adds callback when i) r =
      Safe-bind (λ (p : TimerId × TimerQueue). Running es p.1) (Running es)
        (add_timer new q callback when i) (λ p. ok p.1)
        (add_timer-Running new q callback when i es alloc r) (λ p k. k)
  call-Running q (cancels id) r = cancel id.timer id.sequence
    where
      cancel :
          (a : Option ℕ) (n : ℕ)
          → Safe (Running es) (cancel_in_loop q (record { timer = a; sequence = n }))
      cancel none n = unfold cancel_in_loop in r
      cancel (some a) n = cancel_in_loop-Running es q a n r

  calls-Running :
      (cs : List Call) (q : TimerQueue) → Running es q → Safe (Running es) (calls new q cs)
  unfolding calls
  calls-Running [] q r = r
  calls-Running (c ∷ cs) q r =
      Safe-bind (Running es) (Running es) (call new q c) (λ q'. calls new q' cs)
        (call-Running q c r) (λ q' k. calls-Running cs q' k)

  run_all-Running :
      (script : ℕ → List Call) (xs : List Entry) (q : TimerQueue)
      → ((e : Entry) → Has e xs → Has e es)
      → Running es q
      → Safe (Running es) (run_all new script q xs)
  unfolding run_all
  run_all-Running script [] q sub r = r
  run_all-Running script (x ∷ xs) q sub r =
      let (t, at, _) = All-Has (Live q.heap) x es r.live (sub x (inl refl)) in
      rw (load_lem q.heap x.timer t at) (
        Safe-bind (Running es) (Running es) (calls new q (script t.callback))
          (λ q'. run_all new script q' xs) (calls-Running (script t.callback) q r)
          (λ q' k. run_all-Running script xs q' (λ e h. sub e (inr h)) k))

-- `handleRead` keeps the invariant of the queue and uses no freed memory, whatever timers the
-- callbacks add or cancel, those that are just running included; so afterwards the timerfd is set
-- for the earliest timer. `new` must give addresses that are free.
pub handle_read-Safe :
    (new : Heap → Option ℕ) (script : ℕ → List Call) (q : TimerQueue) (now : ℕ)
    → Allocates new
    → IsValid q
    → Safe IsValid (handle_read new script q now)
unfolding handle_read
handle_read-Safe new script q now alloc v =
    let es = (get_expired q now).0 in
    let q₁ = (get_expired q now).1 in
    let (d, r) = get_expired-Running q now v in
    Safe-bind (Running es) IsValid (run_all new script q₁ es) (λ q'. reset q' es now)
      (run_all-Running new alloc es script es q₁ (λ e h. h) r)
      (λ q' k. Safe-map _ IsValid (reset q' es now) (λ p s. s.0) (reset-Safe es q' now d k))
