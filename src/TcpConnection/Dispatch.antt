-- ===== src/TcpConnection/Dispatch.antt =====
-- The events of a connection's descriptor.
use agora_im.Shared.{
  ℕ, ◌+◌, ◌≤◌, ◌<◌, ◌≡◌, refl, Bool, true, false, not, ◌&&◌, Option, some, [], Bool-cases, inl, inr,
  arith, Bytes, length, max_bytes,
}
use agora_im.Shared.Assertions.{◌>>=◌}
use agora_im.Buffer.{Answer, moved, readable_bytes, read_room}
use agora_im.Channel.{Events, handle_event, meets, read_event, write_event, if_event}
use agora_im.EPollPoller.{Epoll}
use agora_im.TcpConnection.{
  TcpConnection, Callbacks, is_live, handle_close, handle_read, handle_write, handle_events,
}
use agora_im.TcpConnection.Invariant.{IsSound}
use agora_im.TcpConnection.Within.{
  HasRoom, Within, AreBounded, less_room, widen, stays, Within-then,
}
use agora_im.TcpConnection.Closing.{handle_close-Within}
use agora_im.TcpConnection.Reading.{handle_read-Within}
use agora_im.TcpConnection.Drained.{handle_write-Within}

no_read :
    (e : Events)
    → (e.hangup && not e.input) ≡ true
    → (e.hangup && not e.input && e.priority) ≡ false
    → meets e read_event ≡ false
no_read e h r = ground arith

module _ {k : Epoll} (m : ℕ) (on : Callbacks k) (readv : ℕ → Answer Bytes)
    (write : Bytes → Answer ℕ) where
  write_part :
      (revents : Events) (c : TcpConnection k)
      → AreBounded m on
      → IsSound c
      → HasRoom m m c
      → Within m m [] c (if_event (meets revents write_event) (some (handle_write on write)) c)
  write_part revents c a s r = elim (Bool-cases (meets revents write_event)) [
    | inl h ↦ rw h (handle_write-Within m on write c a s r)
    | inr h ↦ rw h (stays m m c c s refl (omega arith) r.input)
  ]

  abbrev read_step : Events → TcpConnection k → Option (TcpConnection k)
  read_step revents c = if_event (meets revents read_event) (some (handle_read on readv)) c

  -- What follows the test for a hangup.
  abbrev rest : Events → TcpConnection k → Option (TcpConnection k)
  rest revents c = if_event revents.error (some (λ (d : TcpConnection k). some d)) c >>= λ s₂.
      read_step revents s₂ >>= λ s₃.
      if_event (meets revents write_event) (some (handle_write on write)) s₃

  rest-Within :
      (b : ℕ) (revents : Events) (c : TcpConnection k)
      → AreBounded m on
      → HasRoom m (b + m) c
      → Within m b [] c (read_step revents c)
      → Within m (b + m) [] c (rest revents c)
  rest-Within b revents c a room r = errors revents.error
    where
      after_read : TcpConnection k → Option (TcpConnection k)
      after_read s₃ = if_event (meets revents write_event) (some (handle_write on write)) s₃

      both : Within m (b + m) [] c (read_step revents c >>= λ s₃. after_read s₃)
      both =
          Within-then m b m [] c (read_step revents c) after_read room r
            (λ c' t q. write_part revents c' a t q)

      errors :
          (e : Bool)
          → Within m (b + m) [] c (
              if_event e (some (λ (d : TcpConnection k). some d)) c >>= λ s₂.
              read_step revents s₂ >>= λ s₃. after_read s₃)
      errors true = both
      errors false = both

  -- `handleEvent` on the channel of a live connection that keeps the invariant fails no
  -- assertion, keeps the invariant and loses no byte of the stream, whatever events came
  -- together, except for a hangup with urgent data and no input. The callbacks may send, shut the
  -- connection down and close it: each keeps the invariant and sends at most `m` bytes wherever the
  -- output has room for them and no more than `m` bytes of input wait, and that for messages only
  -- when some do. The output must have room for three such callbacks, and no more than `m` bytes of
  -- input may wait after the read; `readv` must not give more than it was asked for, and what it may
  -- give must fit in the input buffer.
  pub handle_events-Within :
      (revents : Events) (c : TcpConnection k)
      → AreBounded m on
      → IsSound c
      → HasRoom m (m + m + m) c
      → is_live c.state ≡ true
      → (revents.hangup && not revents.input && revents.priority) ≡ false
      → ((n : ℕ) (bytes : Bytes) → readv n ≡ moved bytes → length bytes ≤ n)
      → length c.input.buffer + read_room c.input < max_bytes
      → readable_bytes c.input + read_room c.input ≤ m
      → Within m (m + m + m) [] c (handle_events on readv write revents c)
  unfolding handle_event
  handle_events-Within revents c a s r h rare honest small most =
      elim (Bool-cases (revents.hangup && not revents.input)) [
        | inl hup ↦
            let quiet = no_read revents hup rare in
            rw hup (
              Within-then m (m + m) m [] c (handle_close on c) (λ s₁. rest revents s₁) r
                (handle_close-Within m on c a s two h)
                (λ c' t q. widen m (0 + m) m [] c' (rest revents c') (omega arith) (
                  rest-Within 0 revents c' a (less_room m m (0 + m) c' (omega arith) q)
                    (rw quiet (stays m 0 c' c' t refl (omega arith) q.input)))))
        | inr up ↦ rw up (rest-Within (m + m) revents c a r (reads (meets revents read_event)))
      ]
    where
      two : HasRoom m (m + m) c
      two = less_room m (m + m + m) (m + m) c (omega arith) r

      reads : (b : Bool) → Within m (m + m) [] c (if_event b (some (handle_read on readv)) c)
      reads true = handle_read-Within m on readv c a s two h honest small most
      reads false = stays m (m + m) c c s refl (omega arith) r.input
