-- ===== src/EventLoop/Opening.antt =====
-- `createEventfd`, `createTimerfd` and the constructor of EPollPoller, which the constructor of a
-- loop calls, and the two channels that it registers.
use agora_im.Shared.{ℕ, ◌≡◌, ◌≢◌, ◌∙◌, refl, sym, none, some, List, [], ◌∷◌, ◌++◌, Bytes, codes}
use agora_im.Logger.{Place, fatal}
use agora_im.Buffer.{Answer, failed, moved}
use agora_im.Sockets.{
  Fd, Syscall, epoll_create_call, eventfd_call, timerfd_create_call, Process, Ended, returns, ◌>>=◌,
  invoke, report,
}
use agora_im.Sockets.Ends.{Grants, Calls, Ends, Ends-then, fatal_report}
use agora_im.Channel.{Channel, Events, read_event}
use agora_im.Channel.{set_reading}
use agora_im.Channel
use agora_im.EPollPoller.{
  channel_calls, disable_all, removal, Epoll, Poller, channel_call, enable_reading, update_channel,
  update_as,
}
use agora_im.EPollPoller.Calls.{channel_call_lem, channel_calls-Kept, unwatched}

-- The three descriptors of a loop.
pub record Descriptors : Type 0 where
  pub epoll_fd : Fd
  pub wakeup_fd : Fd
  pub timer_fd : Fd

module _ (put_time tid_text strerror : ℕ → Bytes) (at : Place) where
  -- `if (fd < 0) LOG_FATAL(message); return fd;`.
  abbrev pub or_fatal : Bytes → Answer ℕ → Process → Ended Fd
  or_fatal msg (moved fd) p = returns (some fd) p
  or_fatal msg (failed errno) p =
      (report put_time tid_text strerror at fatal msg >>= λ u. returns none) p

  module _ (kernel : List Syscall → Syscall → Answer ℕ) where
    unfoldable pub create_poller : Process → Ended Fd
    create_poller = do
      r ← invoke kernel epoll_create_call
      or_fatal (codes "EPollPoller: epoll_create1 failed") r

    unfoldable pub create_eventfd : Process → Ended Fd
    create_eventfd = do r ← invoke kernel eventfd_call; or_fatal (codes "Failed in eventfd") r

    unfoldable pub create_timerfd : Process → Ended Fd
    create_timerfd = do
      r ← invoke kernel timerfd_create_call
      or_fatal (codes "Failed in timerfd_create") r

    -- The constructor makes them in the order of the members.
    unfoldable pub open_loop : Process → Ended Descriptors
    open_loop = do
      epoll_fd ← create_poller
      wakeup_fd ← create_eventfd
      timer_fd ← create_timerfd
      returns (record { epoll_fd = epoll_fd; wakeup_fd = wakeup_fd; timer_fd = timer_fd })

    -- The kernel gave the descriptor at this call.
    abbrev pub Given : Syscall → Process → Fd → Process → Type 0
    Given c p fd q = ((n : ℕ) × (fd ≡ some n) × Grants kernel p.calls c n) × Calls c p q

    or_fatal-Ends :
        (c : Syscall) (msg : Bytes) (r : Answer ℕ) (p : Process)
        → kernel p.calls c ≡ r
        → Ends put_time tid_text strerror at
            (Given c p)
            (or_fatal msg r (record p { calls = p.calls ++ c ∷ [] }))
    or_fatal-Ends c msg (moved fd) p e = ((fd, refl, e), refl)
    or_fatal-Ends c msg (failed errno) p e =
        Ends-then put_time tid_text strerror at (λ u q. ⊥) _
          (report put_time tid_text strerror at fatal msg) _ _
          (fatal_report put_time tid_text strerror at msg _ _) (λ u q h. absurd h)

    -- The constructor of a loop goes on only when the kernel gave all three descriptors, each to its
    -- own call, in the order epoll, eventfd, timerfd; those are the calls made. Otherwise the process
    -- ends with a message of the highest level as its last line.
    pub open_loop-Ends :
        (p : Process)
        → Ends put_time tid_text strerror at
            (λ d q.
              (q₁ : Process) × (q₂ : Process) × Given epoll_create_call p d.epoll_fd q₁
              × Given eventfd_call q₁ d.wakeup_fd q₂
              × Given timerfd_create_call q₂ d.timer_fd q)
            (open_loop p)
    unfolding open_loop create_poller create_eventfd create_timerfd invoke
    open_loop-Ends p =
        Ends-then put_time tid_text strerror at (Given epoll_create_call p) _ create_poller _ p
          (or_fatal-Ends epoll_create_call _ _ p refl)
          (λ a q₁ g₁.
            Ends-then put_time tid_text strerror at (Given eventfd_call q₁) _ create_eventfd _ q₁
              (or_fatal-Ends eventfd_call _ _ q₁ refl)
              (λ b q₂ g₂.
                Ends-then put_time tid_text strerror at (Given timerfd_create_call q₂) _
                  create_timerfd _ q₂ (or_fatal-Ends timerfd_create_call _ _ q₂ refl)
                  (λ c q₃ g₃. (q₁, q₂, g₁, g₂, g₃))))

module _ (k : Epoll) where
  -- The channels of a loop, with its poller.
  pub record Channels : Type 0 where
    pub wakeup : Channel
    pub timer : Channel
    pub poller : Poller k

module _ {k : Epoll} (wakeup_address timer_address : ℕ) where
  -- The end of the two constructors: the timer queue is a member, so that its channel comes first.
  unfoldable pub register : (wakeup_fd timer_fd : ℕ) → Poller k → Channels k
  register wakeup_fd timer_fd p =
      let (timer, p₁) = channel_call timer_address enable_reading (Channel.new timer_fd) p in
      let (wakeup, p₂) = channel_call wakeup_address enable_reading (Channel.new wakeup_fd) p₁ in
      record { wakeup = wakeup; timer = timer; poller = p₂ }

  -- The destructor, and then that of the timer queue.
  unfoldable pub unregister : Channels k → Channels k
  unregister c =
      let ops = disable_all ∷ removal ∷ [] in
      let (wakeup, p₁) = channel_calls wakeup_address ops c.wakeup c.poller in
      let (timer, p₂) = channel_calls timer_address ops c.timer p₁ in
      record { wakeup = wakeup; timer = timer; poller = p₂ }

  -- The constructor of a loop on two different descriptors that are not watched leaves both watched
  -- for reading, and its destructor leaves neither watched; in all this no system call fails, and
  -- what is watched for other descriptors stays.
  pub register-unregister :
      (wakeup_fd timer_fd : ℕ) (p : Poller k)
      → timer_fd ≢ wakeup_fd
      → k.watched p.kernel wakeup_fd ≡ none
      → k.watched p.kernel timer_fd ≡ none
      → let c = register wakeup_fd timer_fd p in
        let d = unregister c in
        (k.watched c.poller.kernel wakeup_fd ≡ some read_event)
        × (k.watched c.poller.kernel timer_fd ≡ some read_event)
        × (k.watched d.poller.kernel wakeup_fd ≡ none)
        × (k.watched d.poller.kernel timer_fd ≡ none)
        × (d.poller.errors ≡ p.errors)
        × ((other : ℕ)
            → other ≢ wakeup_fd
            → other ≢ timer_fd
            → k.watched d.poller.kernel other ≡ k.watched p.kernel other)
  unfolding register unregister Channel.new channel_call update_channel update_as set_reading
  register-unregister wakeup_fd timer_fd p apart w t =
      let apart' : wakeup_fd ≢ timer_fd = λ e. apart (sym e) in
      let ops = disable_all ∷ removal ∷ [] in
      let timer = (channel_call timer_address enable_reading (Channel.new timer_fd) p).0 in
      let p₁ = (channel_call timer_address enable_reading (Channel.new timer_fd) p).1 in
      let k₁ = channel_call_lem timer_address enable_reading (Channel.new timer_fd) p t in
      let w₁ = (k₁.untouched.elsewhere wakeup_fd apart').0 ∙ w in
      let wakeup = (channel_call wakeup_address enable_reading (Channel.new wakeup_fd) p₁).0 in
      let p₂ = (channel_call wakeup_address enable_reading (Channel.new wakeup_fd) p₁).1 in
      let k₂ = channel_call_lem wakeup_address enable_reading (Channel.new wakeup_fd) p₁ w₁ in
      let t₂ = (k₂.untouched.elsewhere timer_fd apart).0 ∙ k₁.current in
      let k₃ = channel_calls-Kept wakeup_address ops wakeup p₂ k₂.current in
      let u₃ = unwatched wakeup_address wakeup p₂ k₂.current in
      let p₃ = (channel_calls wakeup_address ops wakeup p₂).1 in
      let t₃ = (k₃.untouched.elsewhere timer_fd apart).0 ∙ t₂ in
      let k₄ = channel_calls-Kept timer_address ops timer p₃ t₃ in
      (
        k₂.current,
        t₂,
        (k₄.untouched.elsewhere wakeup_fd apart').0 ∙ u₃,
        unwatched timer_address timer p₃ t₃,
        k₄.untouched.errors ∙ k₃.untouched.errors ∙ k₂.untouched.errors ∙ k₁.untouched.errors,
        λ other n m.
            (k₄.untouched.elsewhere other m).0
            ∙ (k₃.untouched.elsewhere other n).0
            ∙ (k₂.untouched.elsewhere other n).0
            ∙ (k₁.untouched.elsewhere other m).0,
      )
