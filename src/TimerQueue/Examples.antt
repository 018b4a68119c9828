-- ===== src/TimerQueue/Examples.antt =====
-- Runs of the queue, and its theorems at a concrete one.
use agora_im.TimerQueue.Settles.{handle_read-Settles}
use agora_im.Channel.{bits, added}
use agora_im.Shared.{true, false, some, none, ok, List, [], ◌∷◌, ◌≡◌, refl}
use agora_im.EPollPoller.Simulated.{epoll}
use agora_im.EPollPoller.Watched.{Untouched}
use agora_im.TimerQueue.Lifetime.{Owner, destroy, Freed, destroy-Freed}
use agora_im.Shared.{
  ltb, if◌then◌else◌, ◌*◌, ◌-◌, ◌+◌, ◌≤◌, ◌<◌, Has, ℕ, ◌≡◌, refl, arith, true, false, Option, none,
  some, List, [], ◌∷◌, inl, inr, Safe, ◌==◌, Option-cases,
}
use agora_im.TimerQueue.{
  how_much_time_from_now, add_timer, Entry, Timer, Interval, TimerQueue, Heap, Call, adds, cancels,
  handle_read, entry_lt,
}
use agora_im.TimerQueue.Valid.{IsOrdered, IsValid, address_id}
use agora_im.TimerQueue.Running.{add_timer-Safe, new_timer, Allocates}
use agora_im.TimerQueue.Reset.{Settled}
use agora_im.TimerQueue.Wait.{how_much_time_from_now_lem}
use agora_im.TimerQueue.Callbacks.{handle_read-Safe}

-- Every 5 microseconds, and once.
abbrev every_five : Interval
every_five = record { positive = true; micros = 5 }

abbrev once : Interval
once = record { positive = false; micros = 0 }

abbrev ticker : Timer
ticker = record { callback = 1; expiration = 10; interval = every_five; sequence = 1 }

abbrev alarm : Timer
alarm = record { callback = 2; expiration = 20; interval = once; sequence = 2 }

abbrev two_alive : Heap
two_alive a = if a == 16 then some ticker else if a == 32 then some alarm else none

abbrev two : TimerQueue
two = record {
  heap = two_alive;
  timers = record { time = 10; timer = 16 } ∷ record { time = 20; timer = 32 } ∷ [];
  armed = some 10;
  created = 2;
}

two-IsOrdered : IsOrdered two
unfolding entry_lt
two-IsOrdered = record {
  sorted = ((refl, tt), (tt, tt));
  alive = ((ticker, refl, refl, omega arith), ((alarm, refl, refl, omega arith), tt));
}

two-IsValid : IsValid two
two-IsValid = record { ordered = two-IsOrdered; armed = refl }

-- `new` with room for three objects.
abbrev give : (h : Heap) (a : ℕ) → Option ℕ → Option ℕ
give h a next = elim (h a) [ none ↦ some a | some t ↦ next ]

abbrev new : Heap → Option ℕ
new h = give h 16 (give h 32 (give h 48 none))

some-ℕ : (a b : ℕ) → ◌≡◌ {A = Option ℕ} (some a) (some b) → a ≡ b
some-ℕ a b e = ground arith

give_free :
    (h : Heap) (b : ℕ) (next : Option ℕ) (a : ℕ)
    → b ≤ 48
    → (next ≡ some a → (h a ≡ none) × (a ≤ 48))
    → give h b next ≡ some a
    → (h a ≡ none) × (a ≤ 48)
give_free h b next a low rest e = elim (Option-cases (h b)) [
  | inl n ↦ let same : b ≡ a = some-ℕ b a (rw (n, give) at e) in (rw (← same) n, omega arith)
  | inr (t, s) ↦ rest (rw (s, give) at e)
]

new-Allocates : Allocates new
new-Allocates h a e =
    let (n, l) =
      give_free h 16 (give h 32 (give h 48 none)) a (omega arith)
        (give_free h 32 (give h 48 none) a (omega arith)
          (give_free h 48 none a (omega arith) (λ q. absurd (cc))))
        e in
    (n, omega arith)

-- The ticker's callback cancels both timers and adds one.
abbrev script : ℕ → List Call
script n =
    if n == 1
    then cancels (address_id 16 1) ∷ cancels (address_id 32 2) ∷ adds 3 12 once ∷ []
    else []

handle_read-Safe_example : Safe IsValid (handle_read new script two 10)
handle_read-Safe_example = handle_read-Safe new script two 10 new-Allocates two-IsValid

add_timer-Safe_example :
    Safe
      (λ r.
        IsValid r.1
        × ((a : ℕ) × (r.0 ≡ address_id a 3)
            × (r.1.heap a ≡ some (new_timer two 3 12 once))
            × Has (record { time = 12; timer = a }) r.1.timers)
        × ((e : Entry) → Has e two.timers → Has e r.1.timers))
      (add_timer new two 3 12 once)
add_timer-Safe_example = add_timer-Safe new two 3 12 once new-Allocates two-IsValid

-- The callback of the timer that is due cancels it.
handle_read-Settles_example :
    Safe
      (λ q'.
        (e : Entry) (t : Timer)
        → Has e two.timers
        → e.time ≤ 10
        → two.heap e.timer ≡ some t
        → Settled 10 e t q')
      (handle_read new script two 10)
handle_read-Settles_example = handle_read-Settles new script two 10 new-Allocates two-IsValid

how_much_time_from_now_lem_example :
    let (seconds, nanoseconds) = how_much_time_from_now 3500000 1000000 in
    (nanoseconds < 1000000000)
    × (100000 ≤ seconds * 1000000000 + nanoseconds)
    × (seconds * 1000000000 + nanoseconds
        ≡ (if ltb 3500000 1000100 then 100000 else (3500000 - 1000000) * 1000))
how_much_time_from_now_lem_example = how_much_time_from_now_lem 3500000 1000000

-- The same queue with its channel, on descriptor 9.
abbrev owner : Owner epoll
owner = record {
  queue = two;
  channel = record {
    fd = 9;
    events = bits true true false false false;
    revents = bits false false false false false;
    index = added;
  };
  poller = record {
    kernel = λ fd. some (bits true true false false false);
    channels = λ fd. some 80;
    errors = 0;
  };
  closed = [];
}

destroy-Freed_example :
    (o' : Owner epoll) × (destroy {k = epoll} 80 owner ≡ ok o')
    × Freed two.timers two o'.queue
    × (o'.poller.kernel 9 ≡ none)
    × (o'.closed ≡ 9 ∷ [])
    × Untouched {k = epoll} 9 owner.poller o'.poller
destroy-Freed_example = destroy-Freed {k = epoll} 80 owner two-IsValid refl
