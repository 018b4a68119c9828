-- ===== src/EventLoop/OwnThread.antt =====
-- The thread of a loop: `isInLoopThread`, `assertInLoopThread`, and the calls of channels, which may
-- come only in that thread.
use agora_im.Shared.{
  ◌∙◌, ℕ, ◌≡◌, ◌≢◌, refl, ap, sym, Bool, true, ◌==◌, ==_iff, if◌then◌else◌, Bool-cases, inl, inr,
  Bytes, codes,
}
use agora_im.Logger.{Place, fatal, CachedTid, tid}
use agora_im.Sockets.{Process, Ended, returns, dies, ◌>>=◌, report}
use agora_im.Sockets.Ends.{Ends, Ends-then, fatal_report}
use agora_im.Channel.{Channel}
use agora_im.EPollPoller.{Epoll, Poller}
use agora_im.EPollPoller

-- A call in a thread: the id that the system gives it, and the one that it has cached.
pub record Caller : Type 0 where
  pub get_id : ℕ
  pub cache : CachedTid

-- The cache holds the id of its thread, if it holds one.
abbrev pub IsOwnCache : Caller → Type 0
IsOwnCache t = t.cache.valid ≡ true → t.cache.cached ≡ t.get_id

unfoldable pub is_in_loop_thread : (thread_id : ℕ) → Caller → Bool
is_in_loop_thread thread_id t = thread_id == (tid t.get_id t.cache).0

tid-own : (t : Caller) → IsOwnCache t → (tid t.get_id t.cache).0 ≡ t.get_id
unfolding tid
tid-own t own = elim (Bool-cases t.cache.valid) [ inl v ↦ rw v (own v) | inr n ↦ rw n refl ]

module _ (put_time tid_text strerror : ℕ → Bytes) (at : Place) where
  unfoldable pub assert_in_loop_thread : (thread_id : ℕ) → Caller → Process → Ended Unit
  assert_in_loop_thread thread_id t =
      if is_in_loop_thread thread_id t
      then returns tt
      else report put_time tid_text strerror at fatal
          (codes "EventLoop::assertInLoopThread - thread mismatch!")

  module _ {k : Epoll} (thread_id : ℕ) where
    unfoldable pub update_channel :
        Caller → (address : ℕ) → Channel → Poller k → Process → Ended (Channel × Poller k)
    update_channel t address c p = do
      _ ← assert_in_loop_thread thread_id t
      returns (EPollPoller.update_channel address c p)

    unfoldable pub remove_channel :
        Caller → Channel → Poller k → Process → Ended (Channel × Poller k)
    remove_channel t c p = do
      _ ← assert_in_loop_thread thread_id t
      returns (EPollPoller.remove_channel c p)

  -- In the loop's thread it goes on, with nothing logged; in another the process ends.
  assert_in_loop_thread_own :
      (thread_id : ℕ) (t : Caller) (p : Process)
      → IsOwnCache t
      → thread_id ≡ t.get_id
      → assert_in_loop_thread thread_id t p ≡ returns tt p
  unfolding assert_in_loop_thread is_in_loop_thread
  assert_in_loop_thread_own thread_id t p own same =
      rw ((==_iff thread_id (tid t.get_id t.cache).0).1 (same ∙ sym (tid-own t own))) refl

  assert_in_loop_thread_other :
      (thread_id : ℕ) (t : Caller) (p : Process)
      → IsOwnCache t
      → thread_id ≢ t.get_id
      → Ends put_time tid_text strerror at (λ u q. ⊥) (assert_in_loop_thread thread_id t p)
  unfolding assert_in_loop_thread is_in_loop_thread
  assert_in_loop_thread_other thread_id t p own differs =
      elim (Bool-cases (thread_id == (tid t.get_id t.cache).0)) [
        | inl y ↦ absurd (differs ((==_iff thread_id _).0 y ∙ tid-own t own))
        | inr n ↦ rw n (fatal_report put_time tid_text strerror at _ p _)
      ]

  -- A channel is updated and removed only in the thread of its loop. There the calls return, log
  -- nothing, and do what those of the poller do. In any other thread neither returns: the process
  -- ends with a message of the highest level, whatever level the logger is set to.
  pub channels-Ends :
      {k : Epoll} (thread_id : ℕ) (t : Caller) (address : ℕ) (c : Channel) (w : Poller k)
      (p : Process)
      → IsOwnCache t
      → (thread_id ≡ t.get_id
          → (update_channel thread_id t address c w p
              ≡ returns (EPollPoller.update_channel address c w) p)
            × (remove_channel thread_id t c w p ≡ returns (EPollPoller.remove_channel c w) p))
        × (thread_id ≢ t.get_id
            → Ends put_time tid_text strerror at
                (λ r q. ⊥)
                (update_channel thread_id t address c w p)
              × Ends put_time tid_text strerror at (λ r q. ⊥) (remove_channel thread_id t c w p))
  unfolding update_channel remove_channel
  channels-Ends thread_id t address c w p own = (
    (λ same.
        let e = assert_in_loop_thread_own thread_id t p own same in
        (
          ap
              (λ r. elim r [
                | dies q ↦ dies q
                | returns u q ↦ returns (EPollPoller.update_channel address c w) q
              ])
              e,
          ap
              (λ r. elim r [
                | dies q ↦ dies q
                | returns u q ↦ returns (EPollPoller.remove_channel c w) q
              ])
              e,
        )),
    λ differs.
        let dead = assert_in_loop_thread_other thread_id t p own differs in
        (
          Ends-then put_time tid_text strerror at _ _ (assert_in_loop_thread thread_id t) _ p dead
              (λ u q h. absurd h),
          Ends-then put_time tid_text strerror at _ _ (assert_in_loop_thread thread_id t) _ p dead
              (λ u q h. absurd h),
        ),
  )
