-- ===== src/TimerQueue/Lifetime.antt =====
-- The constructor and the destructor of a timer queue, and its channel.
use agora_im.EPollPoller.{update_channel, update_as}
use agora_im.Channel.{set_reading}
use agora_im.Shared.{ℕ, ◌≡◌, ◌∙◌, refl, sym, none, some, List, [], ◌∷◌, All, Result, ok, ◌>>=◌}
use agora_im.Channel.{Channel, Events, read_event, none_event, is_new, union}
use agora_im.Channel
use agora_im.EPollPoller.{
  Epoll, Poller, channel_call, channel_calls, enable_reading, disable_all, removal,
}
use agora_im.EPollPoller.Watched.{Current, Untouched}
use agora_im.EPollPoller.Calls.{channel_call_lem, channel_calls-Kept, unwatched}
use agora_im.TimerQueue.{Entry, Heap, TimerQueue, store, free}
use agora_im.TimerQueue.Order.{Sorted}
use agora_im.TimerQueue.Heap.{Alive, Fresh, Alive-store, Fresh-sorted, store_self, store_other}
use agora_im.TimerQueue.Valid.{IsValid, free_lem}

-- The loop of the destructor.
unfoldable pub free_all : TimerQueue → List Entry → Result TimerQueue
free_all q [] = ok q
free_all q (e ∷ entries) = free q e.timer >>= λ q'. free_all q' entries

-- All timers of these entries are deleted, and no other.
pub record Freed (entries : List Entry) (q q' : TimerQueue) : Type 0 where
  pub gone : All (λ (e : Entry). q'.heap e.timer ≡ none) entries
  pub others : (a : ℕ) → Fresh a entries → q'.heap a ≡ q.heap a

free_all_lem :
    (entries : List Entry) (q : TimerQueue)
    → All (Alive q.heap) entries
    → Sorted entries
    → (q' : TimerQueue) × (free_all q entries ≡ ok q') × Freed entries q q'
unfolding free_all
free_all_lem [] q a s = (q, refl, record { gone = tt; others = λ b f. refl })
free_all_lem (e ∷ entries) q a s =
    let fresh = Fresh-sorted q.heap e entries a.0 a.1 s.0 in
    let q₁ : TimerQueue = record q { heap = store q.heap e.timer none } in
    let (q', r, f) =
      free_all_lem entries q₁ (Alive-store q.heap e.timer none entries a.1 fresh) s.1 in
    (
      q',
      rw (free_lem q e.timer a.0.0 a.0.1) r,
      record {
        gone = (f.others e.timer fresh ∙ store_self q.heap e.timer none, f.gone);
        others = λ b g. f.others b g.1 ∙ store_other q.heap e.timer b none (λ x. g.0 (sym x));
      },
    )

module _ (k : Epoll) where
  -- A queue with its channel and the descriptors that it closed.
  pub record Owner : Type 0 where
    pub queue : TimerQueue
    pub channel : Channel
    pub poller : Poller k
    pub closed : List ℕ

module _ {k : Epoll} (address : ℕ) where
  -- The constructor, with the descriptor of `createTimerfd`. No timer was made for this queue yet.
  unfoldable pub new_queue : (timerfd created : ℕ) → Heap → Poller k → Owner k
  new_queue timerfd created h p =
      let (c, p') = channel_call address enable_reading (Channel.new timerfd) p in
      record {
        queue = record { heap = h; timers = []; armed = none; created = created };
        channel = c;
        poller = p';
        closed = [];
      }

  -- The channel is off the poller and the descriptor closed.
  abbrev pub take_down : Owner k → Owner k
  take_down o =
      let (c, p) = channel_calls address (disable_all ∷ removal ∷ []) o.channel o.poller in
      record o { channel = c; poller = p; closed = o.channel.fd ∷ o.closed }

  unfoldable pub destroy : Owner k → Result (Owner k)
  destroy o =
      let o' = take_down o in
      free_all o'.queue o'.queue.timers >>= λ q. ok (record o' { queue = q })

  -- The constructor, on a descriptor that is not watched yet, leaves a queue that keeps the
  -- invariant, and its descriptor watched for reading and nothing else.
  pub new_queue-IsValid :
      (timerfd created : ℕ) (h : Heap) (p : Poller k)
      → k.watched p.kernel timerfd ≡ none
      → IsValid (new_queue timerfd created h p).queue
        × Current (new_queue timerfd created h p).channel (new_queue timerfd created h p).poller
        × (k.watched (new_queue timerfd created h p).poller.kernel timerfd ≡ some read_event)
        × Untouched timerfd p (new_queue timerfd created h p).poller
  unfolding new_queue Channel.new channel_call update_channel update_as set_reading
  new_queue-IsValid timerfd created h p n =
      let kept = channel_call_lem address enable_reading (Channel.new timerfd) p n in
      (
        record { ordered = record { sorted = tt; alive = tt }; armed = tt },
        kept.current,
        kept.current,
        kept.untouched,
      )

  -- The destructor on a queue that keeps the invariant uses no freed timer and frees none twice: it
  -- deletes just the timers in the set, leaves its descriptor unwatched and closes it once, with no
  -- failed system call and no other descriptor touched.
  pub destroy-Freed :
      (o : Owner k)
      → IsValid o.queue
      → Current o.channel o.poller
      → (o' : Owner k) × (destroy o ≡ ok o')
        × Freed o.queue.timers o.queue o'.queue
        × (k.watched o'.poller.kernel o.channel.fd ≡ none)
        × (o'.closed ≡ o.channel.fd ∷ o.closed)
        × Untouched o.channel.fd o.poller o'.poller
  unfolding destroy
  destroy-Freed o v h =
      let (q, r, f) = free_all_lem o.queue.timers o.queue v.ordered.alive v.ordered.sorted in
      (
        record (take_down o) { queue = q },
        rw r refl,
        f,
        unwatched address o.channel o.poller h,
        refl,
        (channel_calls-Kept address (disable_all ∷ removal ∷ []) o.channel o.poller h).untouched,
      )
