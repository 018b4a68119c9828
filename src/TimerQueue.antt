-- ===== src/TimerQueue.antt =====
-- include/agora/net/timer.h, timer_id.h, timer_queue.h and src/net/timer.cpp, timer_id.cpp,
-- timer_queue.cpp: the timers of a loop.
--
-- A `Timer*` is an address, and the heap says which timers are alive; `new` is an argument. Of the
-- interval, a double, the code reads whether it is positive and how many microseconds it makes.
-- Times are microseconds since the epoch. A callback is a number, and what callbacks do to the queue
-- is an argument: a list of calls for each. The sum of a time and an interval, which the source takes
-- in 64 bits with a sign, has no bound here: it would wrap after some 290,000 years. `timerfd_settime` records the time it was set for.
pub mod Order
pub mod Heap
pub mod Expired
pub mod Valid
pub mod Running
pub mod Reset
pub mod Callbacks
pub mod Settles
pub mod Wait
pub mod Lifetime
mod Examples
use agora_im.Shared.{
  ℕ, suc, ◌+◌, ◌-◌, ◌*◌, ◌/◌, ◌%◌, ◌^◌, ◌≡◌, Bool, true, false, ◌&&◌, ◌||◌, Option, none, some,
  List, [], ◌∷◌, ◌++◌, ltb, ◌==◌, if◌then◌else◌, Result, ok, err, dangling, no_memory, ◌>>=◌,
}

pub record Interval : Type 0 where
  pub positive : Bool
  pub micros : ℕ

pub record Timer : Type 0 where
  pub callback : ℕ
  pub expiration : ℕ
  pub interval : Interval
  pub sequence : ℕ

unfoldable pub repeat : Timer → Bool
repeat t = t.interval.positive

-- `Timestamp::addTime` and `Timer::restart`; the invalid time is 0.
unfoldable pub add_time : ℕ → Interval → ℕ
add_time now i = now + i.micros

unfoldable pub restart : Timer → ℕ → Timer
unfolding repeat add_time
restart t now = record t { expiration = if repeat t then add_time now t.interval else 0 }

-- `none` is the null pointer of a default-constructed id.
pub record TimerId : Type 0 where
  pub timer : Option ℕ
  pub sequence : ℕ

pub record Entry : Type 0 where
  pub time : ℕ
  pub timer : ℕ

abbrev pub Heap : Type 0
Heap = ℕ → Option Timer

pub record TimerQueue : Type 0 where
  pub heap : Heap
  pub timers : List Entry
  pub armed : Option ℕ
  pub created : ℕ

abbrev pub max_address : ℕ
max_address = 2 ^ 64 - 1

abbrev pub store : Heap → ℕ → Option Timer → Heap
store h a t b = if b == a then t else h b

-- The order of `std::pair<Timestamp, Timer*>`.
unfoldable pub entry_lt : Entry → Entry → Bool
entry_lt e f = ltb e.time f.time || (e.time == f.time && ltb e.timer f.timer)

-- std::set::insert.
unfoldable pub insert_entry : Entry → List Entry → List Entry
insert_entry e [] = e ∷ []
insert_entry e (f ∷ fs) =
    let rest = insert_entry e fs in
    if entry_lt e f then e ∷ f ∷ fs else if entry_lt f e then f ∷ rest else f ∷ fs

unfoldable pub load : Heap → ℕ → Result Timer
load h a = elim (h a) [ none ↦ err dangling | some t ↦ ok t ]

-- `delete timer`.
unfoldable pub free : TimerQueue → ℕ → Result TimerQueue
unfolding load
free q a = do t ← load q.heap a; ok (record q { heap = store q.heap a none })

-- The length of the wait for `resetTimerfd`, at least 100 microseconds, as seconds and nanoseconds.
unfoldable pub how_much_time_from_now : ℕ → ℕ → ℕ × ℕ
how_much_time_from_now when now =
    let micros : ℕ = if ltb (when - now) 100 then 100 else when - now in
    (micros / 1000000, micros % 1000000 * 1000)

abbrev pub reset_timerfd : TimerQueue → ℕ → TimerQueue
reset_timerfd q when = record q { armed = some when }

-- The end of `cancelInLoop` and of `reset`: the timerfd follows the earliest timer.
pub rearm_for : List Entry → TimerQueue → TimerQueue
rearm_for [] q = q
rearm_for (e ∷ es) q = reset_timerfd q e.time

unfoldable pub rearm : TimerQueue → TimerQueue
unfolding rearm_for
rearm q = rearm_for q.timers q

pub earlier_than_first : ℕ → List Entry → Bool
earlier_than_first when [] = true
earlier_than_first when (e ∷ es) = ltb when e.time

-- Whether the earliest expiration changed, and the queue.
unfoldable pub insert : TimerQueue → ℕ → Result (Bool × TimerQueue)
unfolding earlier_than_first
insert q a = do
  t ← load q.heap a
  let e : Entry = record { time = t.expiration; timer = a }
  ok (earlier_than_first t.expiration q.timers, record q { timers = insert_entry e q.timers })

unfoldable pub add_timer_in_loop : TimerQueue → ℕ → Result TimerQueue
add_timer_in_loop q a = do
  (changed, q') ← insert q a
  t ← load q'.heap a
  ok (if changed then reset_timerfd q' t.expiration else q')

-- The loop of `cancelInLoop`: the entries without the first one for this timer, if there is one.
unfoldable pub erase_timer : ℕ → List Entry → Option (List Entry)
erase_timer a [] = none
erase_timer a (e ∷ es) =
    let rest : Option (List Entry) = elim (erase_timer a es) [
      | none ↦ none
      | some fs ↦ some (e ∷ fs)
    ] in
    if e.timer == a then some es else rest

unfoldable pub cancel_in_loop : TimerQueue → TimerId → Result TimerQueue
cancel_in_loop q id = elim id.timer [
  | none ↦ ok q
  | some a ↦ elim (erase_timer a q.timers) [
    | none ↦ ok q
    | some es ↦ do q' ← free (record q { timers = es }) a; ok (rearm q')
  ]
]

-- `lower_bound` of the sentry, and the two parts of the set around it.
unfoldable pub split_expired : Entry → List Entry → List Entry × List Entry
split_expired sentry [] = ([], [])
split_expired sentry (e ∷ es) =
    let rest : List Entry × List Entry =
      (e ∷ (split_expired sentry es).0, (split_expired sentry es).1) in
    if entry_lt e sentry then rest else ([], e ∷ es)

unfoldable pub get_expired : TimerQueue → ℕ → List Entry × TimerQueue
get_expired q now =
    let (expired, rest) = split_expired (record { time = now; timer = max_address }) q.timers in
    (expired, record q { timers = rest })

-- One round of the loop of `reset`.
unfoldable pub reset_one : TimerQueue → ℕ → ℕ → Result TimerQueue
reset_one q a now = do
  t ← load q.heap a
  if repeat t
      then (insert (record q { heap = store q.heap a (some (restart t now)) }) a >>= λ r. ok r.1)
      else free q a

unfoldable pub reset_all : TimerQueue → List Entry → ℕ → Result TimerQueue
reset_all q [] now = ok q
reset_all q (e ∷ es) now = reset_one q e.timer now >>= λ q'. reset_all q' es now

unfoldable pub reset : TimerQueue → List Entry → ℕ → Result TimerQueue
reset q expired now = do q' ← reset_all q expired now; ok (rearm q')

-- What a callback asks of the queue, in the loop's thread.
pub data Call : Type 0 where
  adds : (callback when : ℕ) → Interval → Call
  cancels : TimerId → Call

module _ (new : Heap → Option ℕ) where
  -- `addTimer`: the constructor counts the timers made.
  unfoldable pub add_timer : TimerQueue → ℕ → ℕ → Interval → Result (TimerId × TimerQueue)
  add_timer q callback when interval = elim (new q.heap) [
    | none ↦ err no_memory
    | some a ↦ do
      let sequence = q.created + 1
      let timer : Timer = record {
        callback = callback;
        expiration = when;
        interval = interval;
        sequence = sequence;
      }
      q' ← add_timer_in_loop (record q { heap = store q.heap a (some timer); created = sequence }) a
      ok (record { timer = some a; sequence = sequence }, q')
  ]

  unfoldable pub call : TimerQueue → Call → Result TimerQueue
  call q (adds callback when interval) = add_timer q callback when interval >>= λ r. ok r.1
  call q (cancels id) = cancel_in_loop q id

  unfoldable pub calls : TimerQueue → List Call → Result TimerQueue
  calls q [] = ok q
  calls q (c ∷ cs) = call q c >>= λ q'. calls q' cs

module _ (new : Heap → Option ℕ) (script : ℕ → List Call) where
  -- The loop over the expired timers: `entry.second->run()`.
  unfoldable pub run_all : TimerQueue → List Entry → Result TimerQueue
  run_all q [] = ok q
  run_all q (e ∷ es) = do
    t ← load q.heap e.timer
    q' ← calls new q (script t.callback)
    run_all q' es

  unfoldable pub handle_read : TimerQueue → ℕ → Result TimerQueue
  handle_read q now = do
    let expired = (get_expired q now).0
    q' ← run_all (get_expired q now).1 expired
    reset q' expired now
