-- ===== src/TimerQueue/Running.antt =====
-- The queue while the callbacks of expired timers run: those timers are alive, but not in the set.
use agora_im.Shared.{
  ℕ, ◌+◌, ◌<◌, ◌≡◌, ◌≢◌, refl, sym, ap, ◌∙◌, Option, none, some, List, [], ◌∷◌, All, Has, All-map,
  All-zip, All-Has, inl, inr, Option-cases, ok, err, no_memory, Safe,
}
use agora_im.TimerQueue.{
  Entry, Timer, TimerQueue, Heap, Interval, store, max_address, insert_entry, erase_timer,
  cancel_in_loop, add_timer,
}
use agora_im.TimerQueue.Order.{insert_entry-All, insert_entry-Has, insert_entry-Has_self}
use agora_im.TimerQueue.Heap.{
  Alive, Live, Fresh, Alive-store, Live-store, Fresh-free, Alive-Live, store_self, erase_timer-All,
  erase_timer-Sorted, erase_timer-Fresh,
}
use agora_im.TimerQueue.Valid.{
  IsOrdered, IsValid, insert_entry-IsOrdered, added, add_timer_in_loop_lem,
  add_timer_in_loop-IsValid, rearm-IsValid, timers-rearm, cancelled, cancel_miss, cancel_hit,
  address_id,
}

pub record Running (es : List Entry) (q : TimerQueue) : Type 0 where
  pub ordered : IsOrdered q
  pub live : All (Live q.heap) es
  pub apart : All (λ (e : Entry). Fresh e.timer q.timers) es

abbrev pub Distinct : List Entry → Type 0
Distinct [] = Unit {0}
Distinct (e ∷ es) = Fresh e.timer es × Distinct es

-- `new` gives addresses that are not in use, and are not the one that no object can have.
abbrev pub Allocates : (Heap → Option ℕ) → Type 0
Allocates new = (h : Heap) (a : ℕ) → new h ≡ some a → (h a ≡ none) × (a < max_address)

-- An entry for an address outside `es` keeps the set apart from them.
pub insert_entry-apart :
    (e : Entry) (ts es : List Entry)
    → Fresh e.timer es
    → All (λ (f : Entry). Fresh f.timer ts) es
    → All (λ (f : Entry). Fresh f.timer (insert_entry e ts)) es
insert_entry-apart e ts es =
    All-zip (λ (f : Entry). f.timer ≢ e.timer) (λ (f : Entry). Fresh f.timer ts)
      (λ (f : Entry). Fresh f.timer (insert_entry e ts))
      (λ f n h. insert_entry-All (λ (g : Entry). g.timer ≢ f.timer) e ts (λ q. n (sym q)) h) es

-- A new timer at a free address.
pub stored-IsOrdered :
    (q : TimerQueue) (a created : ℕ) (t : Timer)
    → q.heap a ≡ none
    → IsOrdered q
    → IsOrdered (record q { heap = store q.heap a (some t); created = created })
stored-IsOrdered q a created t n v = record {
  sorted = v.sorted;
  alive =
      Alive-store q.heap a (some t) q.timers v.alive
        (Fresh-free q.heap a q.timers n (Alive-Live q.heap q.timers v.alive));
}

pub added-Running :
    (es : List Entry) (q : TimerQueue) (a created : ℕ) (t : Timer)
    → q.heap a ≡ none
    → a < max_address
    → Running es q
    → Running es (added (record q { heap = store q.heap a (some t); created = created }) a t)
unfolding added
added-Running es q a created t n b r =
    let h = store q.heap a (some t) in
    let q₀ : TimerQueue = record q { heap = h; created = created } in
    let o =
      insert_entry-IsOrdered q₀ a t (store_self q.heap a (some t)) b
        (stored-IsOrdered q a created t n r.ordered) in
    let f = Fresh-free q.heap a es n r.live in
    record {
      ordered = record { sorted = o.sorted; alive = o.alive };
      live = Live-store q.heap a (some t) es r.live f;
      apart = insert_entry-apart (record { time = t.expiration; timer = a }) q.timers es f r.apart;
    }

pub cancelled-Running :
    (es : List Entry) (q : TimerQueue) (a : ℕ) (ts : List Entry)
    → erase_timer a q.timers ≡ some ts
    → Running es q
    → Running es (cancelled q a ts)
unfolding cancelled
cancelled-Running es q a ts s r =
    let (fresh, e, h, at) =
      erase_timer-Fresh q.heap a q.timers ts s r.ordered.sorted r.ordered.alive in
    let q' : TimerQueue = record q { timers = ts; heap = store q.heap a none } in
    let o : IsOrdered q' = record {
      sorted = erase_timer-Sorted a q.timers ts s r.ordered.sorted;
      alive =
          Alive-store q.heap a none ts
            (erase_timer-All (Alive q.heap) a q.timers ts s r.ordered.alive) fresh;
    } in
    let other =
      All-map (λ (f : Entry). Fresh f.timer q.timers) (λ (f : Entry). f.timer ≢ a)
        (λ f k i. All-Has (λ (g : Entry). g.timer ≢ f.timer) e q.timers k h (at ∙ sym i)) es
        r.apart in
    let (te, he) = timers-rearm q' in
    record {
      ordered = (rearm-IsValid q' o).ordered;
      live = rw he (Live-store q.heap a none es r.live other);
      apart = rw te (
          All-map (λ (f : Entry). Fresh f.timer q.timers) (λ (f : Entry). Fresh f.timer ts)
            (λ f k. erase_timer-All (λ (g : Entry). g.timer ≢ f.timer) a q.timers ts s k) es
            r.apart);
    }

pub cancel_in_loop-Running :
    (es : List Entry) (q : TimerQueue) (a sequence : ℕ)
    → Running es q
    → Safe (Running es) (cancel_in_loop q (address_id a sequence))
cancel_in_loop-Running es q a sequence r = elim (Option-cases (erase_timer a q.timers)) [
  | inl n ↦ rw (cancel_miss q a sequence n) r
  | inr (ts, s) ↦
      let (fresh, e, h, at) =
        erase_timer-Fresh q.heap a q.timers ts s r.ordered.sorted r.ordered.alive in
      let live = All-Has (Alive q.heap) e q.timers r.ordered.alive h in
      rw (cancel_hit q a sequence live.0 ts s (ap q.heap (sym at) ∙ live.1))
        (cancelled-Running es q a ts s r)
]

-- The timer that `addTimer` makes.
abbrev pub new_timer : TimerQueue → ℕ → ℕ → Interval → Timer
new_timer q callback when i = record {
  callback = callback;
  expiration = when;
  interval = i;
  sequence = q.created + 1;
}

-- The queue with that timer at an address, before it is in the set.
abbrev pub with_timer : TimerQueue → ℕ → Timer → TimerQueue
with_timer q a t = record q { heap = store q.heap a (some t); created = q.created + 1 }

module _ (new : Heap → Option ℕ) (q : TimerQueue) (callback when : ℕ) (i : Interval) where
  pub add_timer_lem :
      (a : ℕ)
      → new q.heap ≡ some a
      → add_timer new q callback when i
        ≡ ok (
          address_id a (q.created + 1),
          added (with_timer q a (new_timer q callback when i)) a (new_timer q callback when i),
        )
  unfolding add_timer
  add_timer_lem a e =
      let t = new_timer q callback when i in
      rw (e, add_timer)
        (rw (add_timer_in_loop_lem (with_timer q a t) a t (store_self q.heap a (some t))))

  pub add_timer_full : new q.heap ≡ none → add_timer new q callback when i ≡ err no_memory
  unfolding add_timer
  add_timer_full e = rw (e, add_timer)

  pub add_timer-Running :
      (es : List Entry)
      → Allocates new
      → Running es q
      → Safe (λ r. Running es r.1) (add_timer new q callback when i)
  add_timer-Running es alloc r = elim (Option-cases (new q.heap)) [
    | inl n ↦ rw (add_timer_full n) tt
    | inr (a, e) ↦
        let (free, below) = alloc q.heap a e in
        rw (add_timer_lem a e)
          (added-Running es q a (q.created + 1) (new_timer q callback when i) free below r)
  ]

  -- `addTimer` on a queue that keeps the invariant uses no freed memory and keeps the invariant;
  -- the timer is in the set at its time, under the id returned, and no timer that was there is
  -- lost. `new` must give addresses that are free.
  pub add_timer-Safe :
      Allocates new
      → IsValid q
      → Safe
          (λ r.
            IsValid r.1
            × ((a : ℕ) × (r.0 ≡ address_id a (q.created + 1))
                × (r.1.heap a ≡ some (new_timer q callback when i))
                × Has (record { time = when; timer = a }) r.1.timers)
            × ((e : Entry) → Has e q.timers → Has e r.1.timers))
          (add_timer new q callback when i)
  unfolding added
  add_timer-Safe alloc v = elim (Option-cases (new q.heap)) [
    | inl n ↦ rw (add_timer_full n) tt
    | inr (a, e) ↦
        let (free, below) = alloc q.heap a e in
        let t = new_timer q callback when i in
        let o = stored-IsOrdered q a (q.created + 1) t free v.ordered in
        let v' : IsValid (with_timer q a t) = record { ordered = o; armed = v.armed } in
        rw (add_timer_lem a e) (
          add_timer_in_loop-IsValid (with_timer q a t) a t (store_self q.heap a (some t)) below v',
          (
            a,
            refl,
            store_self q.heap a (some t),
            insert_entry-Has_self (record { time = when; timer = a }) q.timers,
          ),
          λ f h. insert_entry-Has (record { time = when; timer = a }) f q.timers h,
        )
  ]
