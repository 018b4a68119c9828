-- ===== src/TimerQueue/Valid.antt =====
-- The invariant of the queue, kept by `addTimerInLoop` and `cancelInLoop`.
use agora_im.Shared.{
  ℕ, ◌<◌, ◌≡◌, ◌≢◌, refl, sym, ap, ◌∙◌, arith, Option, none, some, List, [], ◌∷◌, All, Has, All-Has,
  inl, inr, Bool-cases, if◌then◌else◌, Option-cases, ok, Safe,
}
use agora_im.TimerQueue.{
  Entry, Timer, TimerId, TimerQueue, Heap, store, max_address, insert, insert_entry, erase_timer,
  load, free, rearm, rearm_for, add_timer_in_loop, cancel_in_loop, earlier_than_first, entry_lt,
}
use agora_im.TimerQueue.Order.{Sorted, insert_entry-All, insert_entry-Sorted}
use agora_im.TimerQueue.Heap.{
  Alive, Fresh, Alive-store, erase_timer-All, erase_timer-Sorted, erase_timer-Fresh,
  erase_timer-none, erase_timer-Has,
}

-- The set is in order, and its entries point to live timers that expire when the entries say.
pub record IsOrdered (q : TimerQueue) : Type 0 where
  pub sorted : Sorted q.timers
  pub alive : All (Alive q.heap) q.timers

-- The timerfd is set for the earliest timer, if there is one.
abbrev pub Armed : List Entry → Option ℕ → Type 0
Armed [] a = Unit {0}
Armed (e ∷ es) a = a ≡ some e.time

pub record IsValid (q : TimerQueue) : Type 0 where
  pub ordered : IsOrdered q
  pub armed : Armed q.timers q.armed

pub load_lem : (h : Heap) (a : ℕ) (t : Timer) → h a ≡ some t → load h a ≡ ok t
unfolding load
load_lem h a t e = rw (e, load)

pub free_lem :
    (q : TimerQueue) (a : ℕ) (t : Timer)
    → q.heap a ≡ some t
    → free q a ≡ ok (record q { heap = store q.heap a none })
unfolding free
free_lem q a t e = rw (load_lem q.heap a t e)

-- `insert` on a live timer.
pub insert_lem :
    (q : TimerQueue) (a : ℕ) (t : Timer)
    → q.heap a ≡ some t
    → insert q a
      ≡ ok (
        earlier_than_first t.expiration q.timers,
        record q { timers = insert_entry (record { time = t.expiration; timer = a }) q.timers },
      )
unfolding insert
insert_lem q a t e = rw (load_lem q.heap a t e)

pub insert_entry-IsOrdered :
    (q : TimerQueue) (a : ℕ) (t : Timer)
    → q.heap a ≡ some t
    → a < max_address
    → IsOrdered q
    → IsOrdered
        (record q { timers = insert_entry (record { time = t.expiration; timer = a }) q.timers })
insert_entry-IsOrdered q a t e h v = record {
  sorted = insert_entry-Sorted (record { time = t.expiration; timer = a }) q.timers v.sorted;
  alive =
      insert_entry-All (Alive q.heap) (record { time = t.expiration; timer = a }) q.timers
        (t, e, refl, h) v.alive;
}

-- After an insertion the first entry is the old one, or the new one if that is earlier.
insert_entry-Armed :
    (e : Entry) (es : List Entry) (armed : Option ℕ)
    → Armed es armed
    → Armed (insert_entry e es) (if earlier_than_first e.time es then some e.time else armed)
unfolding insert_entry earlier_than_first entry_lt
insert_entry-Armed e [] armed h = refl
insert_entry-Armed e (f ∷ fs) armed h = ground arith

-- The queue after `addTimerInLoop` of a live timer.
unfoldable pub added : TimerQueue → ℕ → Timer → TimerQueue
added q a t = record q {
  timers = insert_entry (record { time = t.expiration; timer = a }) q.timers;
  armed = if earlier_than_first t.expiration q.timers then some t.expiration else q.armed;
}

pub add_timer_in_loop_lem :
    (q : TimerQueue) (a : ℕ) (t : Timer)
    → q.heap a ≡ some t
    → add_timer_in_loop q a ≡ ok (added q a t)
unfolding add_timer_in_loop added
add_timer_in_loop_lem q a t e =
    rw (insert_lem q a t e, load_lem q.heap a t e)
      (elim (Bool-cases (earlier_than_first t.expiration q.timers)) [ inl y ↦ rw y | inr n ↦ rw n ])

rearm_for-IsValid :
    (ts : List Entry) (q : TimerQueue) → q.timers ≡ ts → IsOrdered q → IsValid (rearm_for ts q)
unfolding rearm_for
rearm_for-IsValid [] q e v = record { ordered = v; armed = rw e tt }
rearm_for-IsValid (f ∷ fs) q e v = record {
  ordered = record { sorted = v.sorted; alive = v.alive };
  armed = rw e refl;
}

pub rearm-IsValid : (q : TimerQueue) → IsOrdered q → IsValid (rearm q)
unfolding rearm
rearm-IsValid q v = rearm_for-IsValid q.timers q refl v

pub timers-rearm : (q : TimerQueue) → ((rearm q).timers ≡ q.timers) × ((rearm q).heap ≡ q.heap)
unfolding rearm
timers-rearm q = go q.timers
  where
    go : (ts : List Entry) → ((rearm_for ts q).timers ≡ q.timers) × ((rearm_for ts q).heap ≡ q.heap)
    go [] = unfold rearm_for in (refl, refl)
    go (e ∷ es) = unfold rearm_for in (refl, refl)

-- Adding a live timer keeps the invariant, and the timerfd follows if the earliest time changed.
pub add_timer_in_loop-IsValid :
    (q : TimerQueue) (a : ℕ) (t : Timer)
    → q.heap a ≡ some t
    → a < max_address
    → IsValid q
    → IsValid (added q a t)
unfolding added
add_timer_in_loop-IsValid q a t e h v =
    let o = insert_entry-IsOrdered q a t e h v.ordered in
    record {
      ordered = record { sorted = o.sorted; alive = o.alive };
      armed =
          insert_entry-Armed (record { time = t.expiration; timer = a }) q.timers q.armed v.armed;
    }

abbrev pub address_id : ℕ → ℕ → TimerId
address_id a sequence = record { timer = some a; sequence = sequence }

-- What `cancelInLoop` does to the timers at an address, whatever the id's sequence number.
pub record Cancelled (a : ℕ) (q q' : TimerQueue) : Type 0 where
  pub gone : Fresh a q'.timers
  pub others : (e : Entry) → Has e q.timers → e.timer ≢ a → Has e q'.timers

pub cancel_miss :
    (q : TimerQueue) (a sequence : ℕ)
    → erase_timer a q.timers ≡ none
    → cancel_in_loop q (address_id a sequence) ≡ ok q
unfolding cancel_in_loop
cancel_miss q a sequence n = rw (n, cancel_in_loop)

-- The queue after `cancelInLoop` found its timer.
unfoldable pub cancelled : TimerQueue → ℕ → List Entry → TimerQueue
cancelled q a es = rearm (record q { timers = es; heap = store q.heap a none })

pub cancel_hit :
    (q : TimerQueue) (a sequence : ℕ) (t : Timer) (es : List Entry)
    → erase_timer a q.timers ≡ some es
    → q.heap a ≡ some t
    → cancel_in_loop q (address_id a sequence) ≡ ok (cancelled q a es)
unfolding cancel_in_loop cancelled
cancel_hit q a sequence t es s e =
    rw (s, cancel_in_loop) (rw (free_lem (record q { timers = es }) a t e))

-- Cancelling in a queue that keeps the invariant uses no freed memory and keeps the invariant.
-- Afterwards no entry points to the address in the id, and every other timer is still there.
pub cancel_in_loop-Safe :
    (q : TimerQueue) (a sequence : ℕ)
    → IsValid q
    → Safe (λ q'. IsValid q' × Cancelled a q q') (cancel_in_loop q (address_id a sequence))
cancel_in_loop-Safe q a sequence v = elim (Option-cases (erase_timer a q.timers)) [
  | inl n ↦
      rw (cancel_miss q a sequence n)
        (v, record { gone = erase_timer-none a q.timers n; others = λ e h k. h })
  | inr (es, s) ↦
      let (fresh, e, h, at) =
        erase_timer-Fresh q.heap a q.timers es s v.ordered.sorted v.ordered.alive in
      let live = All-Has (Alive q.heap) e q.timers v.ordered.alive h in
      rw (cancel_hit q a sequence live.0 es s (ap q.heap (sym at) ∙ live.1)) (after_hit es s fresh)
]
  where
    after_hit :
        (es : List Entry)
        → erase_timer a q.timers ≡ some es
        → Fresh a es
        → IsValid (cancelled q a es) × Cancelled a q (cancelled q a es)
    after_hit es s fresh =
        let q' : TimerQueue = record q { timers = es; heap = store q.heap a none } in
        let o : IsOrdered q' = record {
          sorted = erase_timer-Sorted a q.timers es s v.ordered.sorted;
          alive =
              Alive-store q.heap a none es
                (erase_timer-All (Alive q.heap) a q.timers es s v.ordered.alive) fresh;
        } in
        unfold cancelled in
        (
          rearm-IsValid q' o,
          record {
            gone = rw ((timers-rearm q').0) fresh;
            others = λ e h n. rw ((timers-rearm q').0) (erase_timer-Has a q.timers es e s n h);
          },
        )
