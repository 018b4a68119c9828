-- ===== src/TimerQueue/Reset.antt =====
-- `reset`: after the callbacks, repeating timers go back into the set and the others are deleted.
use agora_im.Shared.{
  ℕ, ◌+◌, ◌≡◌, ◌≢◌, refl, sym, ap, ◌∙◌, true, false, Option, none, some, List, [], ◌∷◌, Has,
  All-Has, inl, inr, Bool-cases, if◌then◌else◌, ok, Safe, Safe-bind, Safe-map,
}
use agora_im.TimerQueue.{
  Entry, Timer, TimerQueue, store, insert_entry, repeat, restart, reset_one, reset_all, reset,
  rearm, add_time,
}
use agora_im.TimerQueue.Order.{insert_entry-Has, insert_entry-Has_self}
use agora_im.TimerQueue.Heap.{Fresh, Alive-store, Live-store, store_self, store_other}
use agora_im.TimerQueue.Valid.{
  IsOrdered, IsValid, insert_entry-IsOrdered, insert_lem, load_lem, free_lem, rearm-IsValid,
  timers-rearm,
}
use agora_im.TimerQueue.Running.{Running, Distinct, insert_entry-apart}

-- The queue after one round.
pub reset_to : TimerQueue → ℕ → Timer → ℕ → TimerQueue
reset_to q a t now =
    if repeat t
    then record q {
      heap = store q.heap a (some (restart t now));
      timers = insert_entry (record { time = (restart t now).expiration; timer = a }) q.timers;
    }
    else record q { heap = store q.heap a none }

reset_one_lem :
    (q : TimerQueue) (a : ℕ) (t : Timer) (now : ℕ)
    → q.heap a ≡ some t
    → reset_one q a now ≡ ok (reset_to q a t now)
unfolding reset_one reset_to
reset_one_lem q a t now e = elim (Bool-cases (repeat t)) [
  | inl y ↦
      let h = store q.heap a (some (restart t now)) in
      rw (
        load_lem q.heap a t e,
        y,
        insert_lem (record q { heap = h }) a (restart t now)
            (store_self q.heap a (some (restart t now))),
      )
  | inr n ↦ rw (load_lem q.heap a t e, n, free_lem q a t e)
]

reset_to-Running :
    (q : TimerQueue) (e : Entry) (es : List Entry) (t : Timer) (now : ℕ)
    → q.heap e.timer ≡ some t
    → Fresh e.timer es
    → Running (e ∷ es) q
    → Running es (reset_to q e.timer t now)
unfolding reset_to
reset_to-Running q e es t now at fresh r = elim (Bool-cases (repeat t)) [
  | inl y ↦
      let t' = restart t now in
      let h = store q.heap e.timer (some t') in
      let o : IsOrdered (record q { heap = h }) = record {
        sorted = r.ordered.sorted;
        alive = Alive-store q.heap e.timer (some t') q.timers r.ordered.alive r.apart.0;
      } in
      let o' =
        insert_entry-IsOrdered (record q { heap = h }) e.timer t'
          (store_self q.heap e.timer (some t')) r.live.0.2 o in
      rw y (record {
        ordered = record { sorted = o'.sorted; alive = o'.alive };
        live = Live-store q.heap e.timer (some t') es r.live.1 fresh;
        apart =
            insert_entry-apart (record { time = t'.expiration; timer = e.timer }) q.timers es fresh
              r.apart.1;
      })
  | inr n ↦ rw n (record {
    ordered = record {
      sorted = r.ordered.sorted;
      alive = Alive-store q.heap e.timer none q.timers r.ordered.alive r.apart.0;
    };
    live = Live-store q.heap e.timer none es r.live.1 fresh;
    apart = r.apart.1;
  })
]

-- What is promised to an expired timer.
abbrev pub Settled : ℕ → Entry → Timer → TimerQueue → Type 0
Settled now e t q =
    (repeat t ≡ true → Has (record { time = now + t.interval.micros; timer = e.timer }) q.timers)
    × (repeat t ≡ false → q.heap e.timer ≡ none)

reset_to-Settled :
    (q : TimerQueue) (e : Entry) (t : Timer) (now : ℕ) → Settled now e t (reset_to q e.timer t now)
unfolding reset_to restart add_time
reset_to-Settled q e t now = (
  λ y.
      rw (y, reset_to, restart)
        (insert_entry-Has_self (record { time = now + t.interval.micros; timer = e.timer })
          q.timers),
  λ n. rw (n, reset_to) (store_self q.heap e.timer none),
)

-- A round leaves the other timers as they are, and takes no entry out of the set.
reset_to-others :
    (q : TimerQueue) (a : ℕ) (t : Timer) (now : ℕ)
    → ((b : ℕ) → b ≢ a → (reset_to q a t now).heap b ≡ q.heap b)
      × ((e : Entry) → Has e q.timers → Has e (reset_to q a t now).timers)
unfolding reset_to
reset_to-others q a t now = elim (Bool-cases (repeat t)) [
  | inl y ↦ rw y (λ b n. store_other q.heap a b _ n, λ e h. insert_entry-Has _ e q.timers h)
  | inr n ↦ rw n (λ b k. store_other q.heap a b _ k, λ e h. h)
]

-- What the loop of `reset` does: all expired timers are settled, and nothing else is touched.
pub record Reset (q : TimerQueue) (es : List Entry) (now : ℕ) (q' : TimerQueue) : Type 0 where
  pub ordered : IsOrdered q'
  pub settled : (e : Entry) (t : Timer) → Has e es → q.heap e.timer ≡ some t → Settled now e t q'
  pub heap_kept : (b : ℕ) → Fresh b es → q'.heap b ≡ q.heap b
  pub timers_kept : (e : Entry) → Has e q.timers → Has e q'.timers

same_timer : (s t : Timer) → ◌≡◌ {A = Option Timer} (some s) (some t) → s ≡ t
same_timer s t e = cc

Reset-cons :
    (q : TimerQueue) (e : Entry) (es : List Entry) (t : Timer) (now : ℕ) (q' : TimerQueue)
    → q.heap e.timer ≡ some t
    → Fresh e.timer es
    → Reset (reset_to q e.timer t now) es now q'
    → Reset q (e ∷ es) now q'
Reset-cons q e es t now q' at fresh r = record {
  ordered = r.ordered;
  settled = λ f s h b. elim h [
    | inl i ↦ first f s i b
    | inr k ↦
        r.settled f s k
          ((others.0) f.timer (All-Has (λ (g : Entry). g.timer ≢ e.timer) f es fresh k) ∙ b)
  ];
  heap_kept = λ b n. r.heap_kept b n.1 ∙ (others.0) b (λ i. n.0 (sym i));
  timers_kept = λ f h. r.timers_kept f ((others.1) f h);
}
  where
    others :
        ((b : ℕ) → b ≢ e.timer → (reset_to q e.timer t now).heap b ≡ q.heap b)
        × ((f : Entry) → Has f q.timers → Has f (reset_to q e.timer t now).timers)
    others = reset_to-others q e.timer t now

    here : Settled now e t q'
    here = (
      λ y. r.timers_kept _ ((reset_to-Settled q e t now).0 y),
      λ n. r.heap_kept e.timer fresh ∙ (reset_to-Settled q e t now).1 n,
    )

    first : (f : Entry) (s : Timer) → f ≡ e → q.heap f.timer ≡ some s → Settled now f s q'
    first f s i b =
        let st : t ≡ s = same_timer t s (sym at ∙ ap (λ (g : Entry). q.heap g.timer) (sym i) ∙ b) in
        rw (i, ← st) here

pub reset_all-Reset :
    (es : List Entry) (q : TimerQueue) (now : ℕ)
    → Distinct es
    → Running es q
    → Safe (Reset q es now) (reset_all q es now)
unfolding reset_all
reset_all-Reset [] q now d r = record {
  ordered = r.ordered;
  settled = λ e t h b. absurd h;
  heap_kept = λ b n. refl;
  timers_kept = λ e h. h;
}
reset_all-Reset (e ∷ es) q now d r =
    let (t, at, _) = r.live.0 in
    let q₁ = reset_to q e.timer t now in
    let rest = reset_all-Reset es q₁ now d.1 (reset_to-Running q e es t now at d.0 r) in
    rw (reset_one_lem q e.timer t now at) (
      Safe-map (Reset q₁ es now) (Reset q (e ∷ es) now) (reset_all q₁ es now)
        (λ q' s. Reset-cons q e es t now q' at d.0 s) rest)

-- `reset` settles every timer that expired: a repeating one is back in the set, due one interval
-- after now, and any other is deleted. It uses no freed memory, keeps the invariant and leaves
-- every other timer in the set. The expired timers are distinct, alive and not in the set, as
-- they are after `getExpired` and the callbacks.
pub reset-Safe :
    (es : List Entry) (q : TimerQueue) (now : ℕ)
    → Distinct es
    → Running es q
    → Safe
        (λ q'.
          IsValid q'
          × ((e : Entry) (t : Timer) → Has e es → q.heap e.timer ≡ some t → Settled now e t q')
          × ((e : Entry) → Has e q.timers → Has e q'.timers))
        (reset q es now)
unfolding reset
reset-Safe es q now d r =
    Safe-bind (Reset q es now) _ (reset_all q es now) (λ q'. ok (rearm q'))
      (reset_all-Reset es q now d r)
      (λ q' s.
        let (te, he) = timers-rearm q' in
        (
          rearm-IsValid q' s.ordered,
          λ e t h b. rw (te, he) (s.settled e t h b),
          λ e h. rw te (s.timers_kept e h),
        ))
