-- ===== src/TcpConnection/Finishes.antt =====
-- `shutdown` while output waits: write events let it out, and then the write side is shut.
use agora_im.Shared.{
  ℕ, ◌≤◌, ◌<◌, ◌≡◌, ◌∙◌, ◌⊎◌, ap, refl, sym, subst, true, false, not, Option, none, some, List, [],
  ◌∷◌, ◌++◌, append-nil, ◌==◌, Bool-cases, inl, inr, arith, Bytes, length, lt→ltb, All, length-drop,
}
use agora_im.Shared.Assertions.{◌>>=◌}
use agora_im.Buffer.{contents, readable_bytes, Answer, moved, write_fd, retrieve}
use agora_im.Buffer.Contents.{contents-retrieve, length-contents}
use agora_im.Channel.{is_writing}
use agora_im.EPollPoller.{Epoll, disable_writing}
use agora_im.EPollPoller.Masks.{is_writing-channel_call}
use agora_im.TcpConnection.{
  TcpConnection, Callbacks, disconnecting, is_connected, is_disconnecting, notify, ask,
  shutdown_in_loop, shutdown, after_write_fd, after_write, handle_write,
}
use agora_im.TcpConnection.Invariant.{IsSound, stream}
use agora_im.TcpConnection.Output.{contents_nil, connected_not}
use agora_im.TcpConnection.Closing.{shutdown_in_loop-IsSound, closing-IsSound}
use agora_im.TcpConnection.Reading.{connected_live}
use agora_im.TcpConnection.Drained.{not_writing, drained, stream-drained, partly, wholly, busy_open}

-- The kernel takes something of whatever it is given, and no more than that.
abbrev pub Takes : (Bytes → Answer ℕ) → Type 0
Takes write =
    (bytes : Bytes)
    → 0 < length bytes
    → (n : ℕ) × (write bytes ≡ moved n) × (0 < n) × (n ≤ length bytes)

module _ {k : Epoll} where
  -- Everything sent has been taken, and the write side is shut.
  pub record IsFinished (sent : Bytes) (c' : TcpConnection k) : Type 0 where
    pub sound : IsSound c'
    pub shut : c'.shut ≡ true
    pub taken : c'.taken ≡ sent
    pub nothing_waits : contents c'.output ≡ []

module _ {k : Epoll} where
  none_waiting :
      (c : TcpConnection k)
      → IsSound c
      → is_connected c.state ≡ true
      → is_writing c.channel ≡ false
      → (readable_bytes c.output == 0) ≡ true
  none_waiting c s linked w = elim (Bool-cases (readable_bytes c.output == 0)) [
    | inl z ↦ z
    | inr z ↦ absurd (cc (s.waits (connected_not c.state linked), ap not z))
  ]

  still_busy : (c : TcpConnection k) → is_writing c.channel ≡ true → shutdown_in_loop c ≡ c
  unfolding shutdown_in_loop
  still_busy c w = rw w refl

module _ {k : Epoll} (on : Callbacks k) where
  -- Write events, one after the other.
  unfoldable pub write_events : List (Bytes → Answer ℕ) → TcpConnection k → Option (TcpConnection k)
  write_events [] c = some c
  write_events (write ∷ writes) c = handle_write on write c >>= λ c'. write_events writes c'

  -- A connection that does not wait to write is left alone.
  idle :
      (writes : List (Bytes → Answer ℕ)) (c : TcpConnection k)
      → is_writing c.channel ≡ false
      → write_events writes c ≡ some c
  unfolding write_events handle_write
  idle [] c w = refl
  idle (write ∷ writes) c w = rw w (idle writes c w)

  -- `handleWrite` when the kernel takes some of the output, and when it takes the rest of it.
  some_taken :
      (write : Bytes → Answer ℕ) (c : TcpConnection k) (n : ℕ)
      → is_writing c.channel ≡ true
      → write (contents c.output) ≡ moved n
      → 0 < n
      → (readable_bytes (retrieve c.output n) == 0) ≡ false
      → handle_write on write c ≡ some (drained n c)
  unfolding handle_write after_write write_fd after_write_fd
  some_taken write c n w gives h r = rw (w, gives, lt→ltb 0 n h, r) refl

  rest_taken :
      (write : Bytes → Answer ℕ) (c : TcpConnection k) (n : ℕ)
      → on.write_complete ≡ none
      → is_disconnecting c.state ≡ true
      → is_writing c.channel ≡ true
      → write (contents c.output) ≡ moved n
      → 0 < n
      → (readable_bytes (retrieve c.output n) == 0) ≡ true
      → handle_write on write c ≡ some (shutdown_in_loop (ask disable_writing (drained n c)))
  unfolding handle_write after_write write_fd notify after_write_fd
  rest_taken write c n unset closing w gives h r =
      rw (w, gives, lt→ltb 0 n h, r, unset, closing) refl

  -- A closing connection that does not wait to write is finished by `shutdownInLoop`.
  finished :
      (c c' : TcpConnection k)
      → IsSound c'
      → is_disconnecting c'.state ≡ true
      → is_writing c'.channel ≡ false
      → stream c' ≡ stream c
      → contents c'.output ≡ []
      → (is_writing (shutdown_in_loop c').channel ≡ false)
        × IsFinished (stream c) (shutdown_in_loop c')
  finished c c' s closing w same e =
      let now = not_writing c' w in
      rw (now) (
        w,
        record {
          sound = subst (λ d. IsSound d) now (shutdown_in_loop-IsSound c' s closing).0;
          shut = refl;
          taken = sym (append-nil c'.taken) ∙ ap (λ x. c'.taken ++ x) (sym e) ∙ same;
          nothing_waits = e;
        },
      )

  -- One write event on a closing connection with output: it is finished, or less waits.
  one_event :
      (write : Bytes → Answer ℕ) (c : TcpConnection k)
      → on.write_complete ≡ none
      → Takes write
      → IsSound c
      → is_disconnecting c.state ≡ true
      → is_writing c.channel ≡ true
      → (c' : TcpConnection k) × (handle_write on write c ≡ some c')
        × (((is_writing c'.channel ≡ false) × IsFinished (stream c) c')
            ⊎ ((is_writing c'.channel ≡ true)
                × IsSound c'
                × (is_disconnecting c'.state ≡ true)
                × (stream c' ≡ stream c)
                × (length (contents c'.output) < length (contents c.output))))
  one_event write c unset takes s closing w =
      let (_, b, _) = busy_open c s w in
      let many : 0 < length (contents c.output) =
        ground (arith, length-contents c.output s.output, b) in
      let (n, gives, h, _) = takes (contents c.output) many in
      let (v, left) = contents-retrieve c.output n s.output in
      elim (Bool-cases (readable_bytes (retrieve c.output n) == 0)) [
        | inl r ↦
            let d = drained n c in
            let s' = wholly n c s w r in
            (
              shutdown_in_loop (ask disable_writing d),
              rest_taken write c n unset closing w gives h r,
              inl (
                  finished c (ask disable_writing d) s' closing
                    (is_writing-channel_call c.address disable_writing c.channel c.poller)
                    (stream-drained n c s) (contents_nil d.output s'.output r)),
            )
        | inr r ↦ (
          drained n c,
          some_taken write c n w gives h r,
          inr (
            w,
            partly n c s w r,
            closing,
            stream-drained n c s,
            omega (arith, ap length left, length-drop n (contents c.output), many, h),
          ),
        )
      ]

  -- A closing connection that waits to write is finished by enough write events.
  events-finish :
      (writes : List (Bytes → Answer ℕ)) (c : TcpConnection k)
      → on.write_complete ≡ none
      → All Takes writes
      → IsSound c
      → is_disconnecting c.state ≡ true
      → is_writing c.channel ≡ true
      → length (contents c.output) ≤ length writes
      → (c' : TcpConnection k) × (write_events writes c ≡ some c') × IsFinished (stream c) c'
  unfolding write_events
  events-finish [] c unset takes s closing w enough =
      let (_, b, _) = busy_open c s w in
      absurd (ground (arith, length-contents c.output s.output, b))
  events-finish (write ∷ writes) c unset takes s closing w enough =
      let (c', met, next) = one_event write c unset takes.0 s closing w in
      elim next [
        | inl (w', done) ↦ (c', rw met (idle writes c' w'), done)
        | inr (w', s', closing', same, less) ↦
            let (last, ran, done) =
              events-finish writes c' unset takes.1 s' closing' w' (omega (arith, less, enough)) in
            (last, rw met ran, subst (λ sent. IsFinished sent last) same done)
      ]

  -- `shutdown` on a connected connection, with any output, when no writeComplete callback is set:
  -- as many write events as bytes wait are enough to let all of them out and then shut the write
  -- side, if the kernel takes at least one byte each time. No assertion fails, and the kernel has
  -- then taken all that was sent, in order.
  pub shutdown-finishes :
      (writes : List (Bytes → Answer ℕ)) (c : TcpConnection k)
      → on.write_complete ≡ none
      → All Takes writes
      → IsSound c
      → is_connected c.state ≡ true
      → length (contents c.output) ≤ length writes
      → (c' : TcpConnection k) × (write_events writes (shutdown c) ≡ some c')
        × IsFinished (stream c) c'
  unfolding shutdown
  shutdown-finishes writes c unset takes s linked enough =
      let d : TcpConnection k = record c { state = disconnecting } in
      let s' = closing-IsSound c s (connected_live c.state linked) in
      elim (Bool-cases (is_writing c.channel)) [
        | inl w ↦ rw (linked, still_busy d w) (events-finish writes d unset takes s' refl w enough)
        | inr w ↦
            let e = contents_nil c.output s.output (none_waiting c s linked w) in
            let (w', done) = finished d d s' refl w refl e in
            rw linked (shutdown_in_loop d, idle writes (shutdown_in_loop d) w', done)
      ]
