-- ===== src/TimerQueue/Settles.antt =====
-- What becomes of a timer that is due, whatever the callbacks do meanwhile.
use agora_im.Shared.{
  ℕ, ◌+◌, ◌≤◌, ◌<◌, ◌≡◌, ◌≢◌, ◌⊎◌, refl, sym, ap, ◌∙◌, arith, Option, none, some, List, [], ◌∷◌,
  ◌++◌, Has, All-Has, inl, inr, Option-cases, ok, Safe, Safe-bind, Safe-map,
}
use agora_im.TimerQueue.{
  Entry, Timer, TimerId, TimerQueue, Heap, Interval, Call, adds, cancels, call, calls, add_timer,
  cancel_in_loop, erase_timer, store, max_address, run_all, handle_read, get_expired, reset,
}
use agora_im.TimerQueue.Heap.{Alive, Live, Fresh, store_other, erase_timer-Fresh}
use agora_im.TimerQueue.Valid.{
  IsValid, load_lem, added, cancelled, cancel_hit, cancel_miss, address_id, timers-rearm,
}
use agora_im.TimerQueue.Expired.{get_expired_lem}
use agora_im.TimerQueue.Running.{
  Running, Allocates, add_timer_lem, add_timer_full, new_timer, added-Running, cancelled-Running,
}
use agora_im.TimerQueue.Reset.{Settled, reset-Safe}
use agora_im.TimerQueue.Callbacks.{get_expired-Running}

-- The timers of these entries are as they were.
abbrev pub Keeps : List Entry → TimerQueue → TimerQueue → Type 0
Keeps es q q' =
    (e : Entry) (t : Timer) → Has e es → q.heap e.timer ≡ some t → q'.heap e.timer ≡ some t

some_not : (t : Timer) (o : Option Timer) → o ≡ none → o ≡ some t → ⊥
some_not t o n s = cc

module _ (es : List Entry) (q₀ : TimerQueue) where
  abbrev Sits : TimerQueue → Type 0
  Sits q = Running es q × Keeps es q₀ q

  -- A timer at a free address leaves the others.
  added-Sits :
      (q : TimerQueue) (a created : ℕ) (t : Timer)
      → q.heap a ≡ none
      → a < max_address
      → Sits q
      → Sits (added (record q { heap = store q.heap a (some t); created = created }) a t)
  unfolding added
  added-Sits q a created t n b (r, keeps) = (
    added-Running es q a created t n b r,
    λ e s h at.
        store_other q.heap a e.timer (some t)
          (λ i. some_not s (q.heap e.timer) (ap q.heap i ∙ n) (keeps e s h at))
        ∙ keeps e s h at,
  )

  -- A timer in the set that is deleted is none of those that run.
  cancelled-Sits :
      (q : TimerQueue) (a : ℕ) (ts : List Entry)
      → erase_timer a q.timers ≡ some ts
      → Sits q
      → Sits (cancelled q a ts)
  unfolding cancelled
  cancelled-Sits q a ts s (r, keeps) =
      let (fresh, f, h, at) =
        erase_timer-Fresh q.heap a q.timers ts s r.ordered.sorted r.ordered.alive in
      let (te, he) = timers-rearm (record q { timers = ts; heap = store q.heap a none }) in
      (
        cancelled-Running es q a ts s r,
        λ e t m k.
            let apart = All-Has (λ (g : Entry). Fresh g.timer q.timers) e es r.apart m in
            let other = All-Has (λ (g : Entry). g.timer ≢ e.timer) f q.timers apart h in
            ap (λ (x : Heap). x e.timer) he
            ∙ store_other q.heap a e.timer none (λ i. other (at ∙ sym i))
            ∙ keeps e t m k,
      )

  module _ (new : Heap → Option ℕ) (alloc : Allocates new) where
    add_timer-Sits :
        (q : TimerQueue) (callback when : ℕ) (i : Interval)
        → Sits q
        → Safe (λ r. Sits r.1) (add_timer new q callback when i)
    add_timer-Sits q callback when i s = elim (Option-cases (new q.heap)) [
      | inl n ↦ rw (add_timer_full new q callback when i n) tt
      | inr (a, e) ↦
          let (free, below) = alloc q.heap a e in
          rw (add_timer_lem new q callback when i a e)
            (added-Sits q a (q.created + 1) (new_timer q callback when i) free below s)
    ]

    cancel-Sits :
        (q : TimerQueue) (a sequence : ℕ)
        → Sits q
        → Safe Sits (cancel_in_loop q (address_id a sequence))
    cancel-Sits q a sequence s = elim (Option-cases (erase_timer a q.timers)) [
      | inl n ↦ rw (cancel_miss q a sequence n) s
      | inr (ts, m) ↦
          let r = s.0 in
          let (fresh, e, h, at) =
            erase_timer-Fresh q.heap a q.timers ts m r.ordered.sorted r.ordered.alive in
          let live = All-Has (Alive q.heap) e q.timers r.ordered.alive h in
          rw (cancel_hit q a sequence live.0 ts m (ap q.heap (sym at) ∙ live.1))
            (cancelled-Sits q a ts m s)
    ]

    call-Sits : (q : TimerQueue) (c : Call) → Sits q → Safe Sits (call new q c)
    unfolding call
    call-Sits q (adds callback when i) s =
        Safe-bind (λ (p : TimerId × TimerQueue). Sits p.1) Sits (add_timer new q callback when i)
          (λ p. ok p.1) (add_timer-Sits q callback when i s) (λ p k. k)
    call-Sits q (cancels id) s = cancel id.timer id.sequence
      where
        cancel :
            (a : Option ℕ) (n : ℕ)
            → Safe Sits (cancel_in_loop q (record { timer = a; sequence = n }))
        cancel none n = unfold cancel_in_loop in s
        cancel (some a) n = cancel-Sits q a n s

    calls-Sits : (cs : List Call) (q : TimerQueue) → Sits q → Safe Sits (calls new q cs)
    unfolding calls
    calls-Sits [] q s = s
    calls-Sits (c ∷ cs) q s =
        Safe-bind Sits Sits (call new q c) (λ q'. calls new q' cs) (call-Sits q c s)
          (λ q' k. calls-Sits cs q' k)

    run_all-Sits :
        (script : ℕ → List Call) (xs : List Entry) (q : TimerQueue)
        → ((e : Entry) → Has e xs → Has e es)
        → Sits q
        → Safe Sits (run_all new script q xs)
    unfolding run_all
    run_all-Sits script [] q sub s = s
    run_all-Sits script (x ∷ xs) q sub s =
        let (t, at, _) = All-Has (Live q.heap) x es s.0.live (sub x (inl refl)) in
        rw (load_lem q.heap x.timer t at) (
          Safe-bind Sits Sits (calls new q (script t.callback)) (λ q'. run_all new script q' xs)
            (calls-Sits (script t.callback) q s)
            (λ q' k. run_all-Sits script xs q' (λ e h. sub e (inr h)) k))

Has-append : (e : Entry) (xs ys : List Entry) → Has e (xs ++ ys) → Has e xs ⊎ Has e ys
Has-append e [] ys h = inr h
Has-append e (x ∷ xs) ys (inl i) = inl (inl i)
Has-append e (x ∷ xs) ys (inr h) = elim (Has-append e xs ys h) [
  | inl a ↦ inl (inr a)
  | inr b ↦ inr b
]

-- A timer that is due is among those that `getExpired` takes out, with the heap as it was.
due-Has :
    (q : TimerQueue) (now : ℕ) (e : Entry)
    → IsValid q
    → Has e q.timers
    → e.time ≤ now
    → Has e (get_expired q now).0 × ((get_expired q now).1.heap ≡ q.heap)
due-Has q now e v h due =
    let (cut, _, later, same) = get_expired_lem q now v.ordered.sorted v.ordered.alive in
    (
      elim (Has-append e (get_expired q now).0 (get_expired q now).1.timers (rw cut at h)) [
        | inl a ↦ a
        | inr b ↦
            let l = All-Has (λ (f : Entry). now < f.time) e (get_expired q now).1.timers later b in
            absurd (omega (arith, l, due))
      ],
      ap (λ (p : TimerQueue). p.heap) same,
    )

-- `handleRead` settles every timer that is due, whatever timers the callbacks add or cancel: one
-- that repeats is in the set again afterwards, due one interval after now, even when a callback
-- has cancelled it meanwhile; any other is deleted. `new` must give addresses that are free, and
-- no freed memory is used.
pub handle_read-Settles :
    (new : Heap → Option ℕ) (script : ℕ → List Call) (q : TimerQueue) (now : ℕ)
    → Allocates new
    → IsValid q
    → Safe
        (λ q'.
          (e : Entry) (t : Timer)
          → Has e q.timers
          → e.time ≤ now
          → q.heap e.timer ≡ some t
          → Settled now e t q')
        (handle_read new script q now)
unfolding handle_read
handle_read-Settles new script q now alloc v =
    let es = (get_expired q now).0 in
    let q₁ = (get_expired q now).1 in
    let (d, r) = get_expired-Running q now v in
    Safe-bind (λ p. Running es p × Keeps es q₁ p) _ (run_all new script q₁ es)
      (λ q'. reset q' es now)
      (run_all-Sits es q₁ new alloc script es q₁ (λ e h. h) (r, λ e t h k. k))
      (λ q' s.
        Safe-map _ _ (reset q' es now)
          (λ p settled e t h due at.
            let (m, same) = due-Has q now e v h due in
            settled.1 e t m (s.1 e t m (ap (λ (x : Heap). x e.timer) same ∙ at)))
          (reset-Safe es q' now d s.0))
