-- ===== src/TcpConnection/Drained.antt =====
-- `handleWrite`, and the shutdown that waits for it.
use agora_im.Shared.{
  ℕ, ◌≡◌, ◌∙◌, ap, refl, sym, subst, true, false, not, some, [], ◌++◌, append_assoc, ◌==◌,
  if◌then◌else◌, Bool-cases, inl, inr, arith, Bytes, ltb, take, drop, take-append-drop,
}
use agora_im.Buffer.{contents, readable_bytes, Answer, failed, moved, write_fd, retrieve}
use agora_im.Buffer.Contents.{contents-retrieve}
use agora_im.Buffer.Valid.{writer_index-retrieve}
use agora_im.Channel.{is_writing}
use agora_im.EPollPoller.{Epoll, disable_writing}
use agora_im.EPollPoller.Calls.{channel_call_lem}
use agora_im.EPollPoller.Masks.{is_writing-channel_call}
use agora_im.TcpConnection.{
  TcpConnection, Callbacks, is_disconnected, is_disconnecting, notify, ask, shutdown_in_loop,
  after_write_fd, after_write, handle_write,
}
use agora_im.TcpConnection.Invariant.{IsSound, stream}
use agora_im.TcpConnection.Within.{HasRoom, Within, AreBounded, stays, then_quiet, calls_back}
use agora_im.TcpConnection.Closing.{shutdown_in_loop-IsSound}

module _ {k : Epoll} where
  pub not_writing :
      (c : TcpConnection k)
      → is_writing c.channel ≡ false
      → shutdown_in_loop c ≡ record c { shut = true }
  unfolding shutdown_in_loop
  not_writing c w = rw w refl

  -- The connection when the kernel took `n` bytes of the output.
  abbrev pub drained : ℕ → TcpConnection k → TcpConnection k
  drained n c = record c {
    taken = c.taken ++ take n (contents c.output);
    output = retrieve c.output n;
  }

  pub stream-drained : (n : ℕ) (c : TcpConnection k) → IsSound c → stream (drained n c) ≡ stream c
  stream-drained n c s =
      let (v, e) = contents-retrieve c.output n s.output in
      ap (λ x. (c.taken ++ take n (contents c.output)) ++ x) e
      ∙ append_assoc c.taken (take n (contents c.output)) (drop n (contents c.output))
      ∙ ap (λ x. c.taken ++ x) (take-append-drop n (contents c.output))

  -- A connection that waits to write has output, and is not shut.
  pub busy_open :
      (c : TcpConnection k)
      → IsSound c
      → is_writing c.channel ≡ true
      → (is_disconnected c.state ≡ false)
        × ((readable_bytes c.output == 0) ≡ false)
        × (c.shut ≡ false)
  busy_open c s w =
      let d : is_disconnected c.state ≡ false = elim (Bool-cases (is_disconnected c.state)) [
        | inl y ↦ absurd (cc (s.quiet y))
        | inr n ↦ n
      ] in
      let r : (readable_bytes c.output == 0) ≡ false =
        elim (Bool-cases (readable_bytes c.output == 0)) [
          | inl z ↦ absurd (cc (s.waits d, ap not z))
          | inr n ↦ n
        ] in
      (d, r, elim (Bool-cases c.shut) [ inl y ↦ absurd (ground (arith, (s.shut y).2)) | inr n ↦ n ])

  pub partly :
      (n : ℕ) (c : TcpConnection k)
      → IsSound c
      → is_writing c.channel ≡ true
      → (readable_bytes (retrieve c.output n) == 0) ≡ false
      → IsSound (drained n c)
  partly n c s w r =
      let (d, b, o) = busy_open c s w in
      record {
        input = s.input;
        output = (contents-retrieve c.output n s.output).0;
        current = s.current;
        waits = λ e. w ∙ ap not (sym r);
        quiet = s.quiet;
        shut = λ y. absurd (cc);
      }

  pub wholly :
      (n : ℕ) (c : TcpConnection k)
      → IsSound c
      → is_writing c.channel ≡ true
      → (readable_bytes (retrieve c.output n) == 0) ≡ true
      → IsSound (ask disable_writing (drained n c))
  wholly n c s w r =
      let (d, b, o) = busy_open c s w in
      let off = is_writing-channel_call c.address disable_writing c.channel c.poller in
      record {
        input = s.input;
        output = (contents-retrieve c.output n s.output).0;
        current = (channel_call_lem c.address disable_writing c.channel c.poller s.current).current;
        waits = λ e. off ∙ ap not (sym r);
        quiet = λ e. off;
        shut = λ y. absurd (cc);
      }

  -- The end of `handleWrite`: a connection that is closing is shut now.
  then_shut :
      (m : ℕ) (c : TcpConnection k)
      → IsSound c
      → HasRoom m 0 c
      → Within m 0 [] c (some (if is_disconnecting c.state then shutdown_in_loop c else c))
  unfolding shutdown_in_loop
  then_shut m c s r = elim (Bool-cases (is_disconnecting c.state)) [
    | inl h ↦
        let (t, e) = shutdown_in_loop-IsSound c s h in
        rw h (elim (Bool-cases (is_writing c.channel)) [
          | inl w ↦ rw w (stays m 0 c c s refl (omega arith) r.input)
          | inr w ↦ rw w (
              stays m 0 c (record c { shut = true }) (subst (λ d. IsSound d) (not_writing c w) t)
                refl (omega arith) r.input)
        ])
    | inr h ↦ rw h (stays m 0 c c s refl (omega arith) r.input)
  ]

  module _ (m : ℕ) (on : Callbacks k) where
    after_write-Within :
        (n : ℕ) (c : TcpConnection k)
        → AreBounded m on
        → IsSound c
        → HasRoom m m c
        → is_writing c.channel ≡ true
        → Within m m [] c (after_write on n c)
    unfolding after_write
    after_write-Within n c a s room w =
        let less = writer_index-retrieve c.output n s.output in
        elim (Bool-cases (readable_bytes (retrieve c.output n) == 0)) [
          | inl r ↦ rw r (
              then_quiet m m [] c (notify on.write_complete (ask disable_writing (drained n c)))
                (λ c'. some (if is_disconnecting c'.state then shutdown_in_loop c' else c')) room
                (calls_back m on.write_complete c _ a.write_complete room (wholly n c s w r)
                  (stream-drained n c s) less room.input)
                (λ c' t q. then_shut m c' t q))
          | inr r ↦
              rw r (
                stays m m c (drained n c) (partly n c s w r) (stream-drained n c s) less room.input)
        ]

    after_write_fd-Within :
        (r : Answer ℕ) (c : TcpConnection k)
        → AreBounded m on
        → IsSound c
        → HasRoom m m c
        → is_writing c.channel ≡ true
        → Within m m [] c (after_write_fd on r c)
    unfolding after_write_fd
    after_write_fd-Within (failed errno) c a s room w =
        stays m m c c s refl (omega arith) room.input
    after_write_fd-Within (moved n) c a s room w = elim (Bool-cases (ltb 0 n)) [
      | inl p ↦ rw p (after_write-Within n c a s room w)
      | inr p ↦ rw p (stays m m c c s refl (omega arith) room.input)
    ]

    -- `handleWrite` in any state that keeps the invariant, with bounded callbacks, fails no
    -- assertion, and leaves the stream of bytes sent as it is: what the kernel takes is what was
    -- first in the output. It keeps the invariant: write events are asked for just while output
    -- waits, and the write side is shut only when none does. What a callback sends comes behind.
    pub handle_write-Within :
        (write : Bytes → Answer ℕ) (c : TcpConnection k)
        → AreBounded m on
        → IsSound c
        → HasRoom m m c
        → Within m m [] c (handle_write on write c)
    unfolding handle_write
    handle_write-Within write c a s room = elim (Bool-cases (is_writing c.channel)) [
      | inl w ↦ rw w (after_write_fd-Within (write_fd write c.output) c a s room w)
      | inr w ↦ rw w (stays m m c c s refl (omega arith) room.input)
    ]
