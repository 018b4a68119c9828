-- ===== src/TimerQueue/Wait.antt =====
-- How long the timerfd waits.
use agora_im.Shared.{ℕ, ◌+◌, ◌-◌, ◌*◌, ◌≤◌, ◌<◌, ◌≡◌, arith, ltb, if◌then◌else◌}
use agora_im.TimerQueue.{how_much_time_from_now}

-- The `timespec` of `howMuchTimeFromNow` is one that `timerfd_settime` accepts, its nanoseconds
-- below a second. It is never zero, which would disarm the timerfd: it is the time from now to the
-- expiration, or 100 microseconds when the expiration is nearer or past.
pub how_much_time_from_now_lem :
    (when now : ℕ)
    → let (seconds, nanoseconds) = how_much_time_from_now when now in
      (nanoseconds < 1000000000)
      × (100000 ≤ seconds * 1000000000 + nanoseconds)
      × (seconds * 1000000000 + nanoseconds
          ≡ (if ltb when (now + 100) then 100000 else (when - now) * 1000))
unfolding how_much_time_from_now
how_much_time_from_now_lem when now = ground arith
