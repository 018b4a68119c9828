-- ===== src/TcpConnection/Closing.antt =====
-- Opening and closing, and reading, which may close.
use agora_im.Shared.{
  ℕ, ◌+◌, ◌≡◌, ◌∙◌, refl, sym, true, false, not, some, [], ◌==◌, Bool-cases, inl, inr, arith,
}
use agora_im.Buffer.{readable_bytes}
use agora_im.Channel.{is_writing}
use agora_im.EPollPoller.{Epoll, enable_reading, disable_all, removal}
use agora_im.EPollPoller.Calls.{channel_call_lem}
use agora_im.EPollPoller.Masks.{is_writing-channel_call}
use agora_im.TcpConnection.{
  TcpConnection, Callbacks, State, disconnected, connecting, connected, disconnecting, is_connected,
  is_disconnected, is_connecting, is_live, is_disconnecting, notify, ask, shutdown_in_loop,
  connect_established, connect_destroyed, handle_close, force_close,
}
use agora_im.TcpConnection.Invariant.{IsSound, stream}
use agora_im.TcpConnection.Within.{
  HasRoom, Within, AreBounded, less_room, stays, Within-then, then_quiet, calls_back,
}

live_not : (s : State) → is_live s ≡ true → is_disconnected s ≡ false
live_not disconnected h = absurd (cc)
live_not connecting h = refl
live_not connected h = refl
live_not disconnecting h = refl

disconnecting_not :
    (s : State)
    → is_disconnecting s ≡ true
    → (is_disconnected s ≡ false) × (is_connecting s ≡ false) × (is_connected s ≡ false)
disconnecting_not disconnected h = absurd (cc)
disconnecting_not connecting h = absurd (cc)
disconnecting_not connected h = absurd (cc)
disconnecting_not disconnecting h = (refl, refl, refl)

connecting_not : (s : State) → is_connecting s ≡ true → is_disconnected s ≡ false
connecting_not disconnected h = absurd (cc)
connecting_not connecting h = refl
connecting_not connected h = absurd (cc)
connecting_not disconnecting h = absurd (cc)

none_waits : (n : ℕ) → false ≡ not (n == 0) → n ≡ 0
none_waits n h = ground arith

module _ {k : Epoll} where
  pub shutdown_in_loop-IsSound :
      (c : TcpConnection k)
      → IsSound c
      → is_disconnecting c.state ≡ true
      → IsSound (shutdown_in_loop c) × (stream (shutdown_in_loop c) ≡ stream c)
  unfolding shutdown_in_loop
  shutdown_in_loop-IsSound c s h =
      let (a, b, d) = disconnecting_not c.state h in
      elim (Bool-cases (is_writing c.channel)) [
        | inl w ↦ rw w (s, refl)
        | inr w ↦
            let n = none_waits (readable_bytes c.output) (sym w ∙ s.waits a) in
            rw w (
              record {
                input = s.input;
                output = s.output;
                current = s.current;
                waits = s.waits;
                quiet = s.quiet;
                shut = λ y. (b, d, n);
              },
              refl,
            )
      ]

  pub closing-IsSound :
      (c : TcpConnection k)
      → IsSound c
      → is_live c.state ≡ true
      → IsSound (record c { state = disconnecting })
  closing-IsSound c s h = record {
    input = s.input;
    output = s.output;
    current = s.current;
    waits = λ d. s.waits (live_not c.state h);
    quiet = λ d. absurd (cc);
    shut = λ y. (refl, refl, (s.shut y).2);
  }

  closed-IsSound :
      (c : TcpConnection k)
      → IsSound c
      → IsSound (ask disable_all (record c { state = disconnected }))
  closed-IsSound c s = record {
    input = s.input;
    output = s.output;
    current = (channel_call_lem c.address disable_all c.channel c.poller s.current).current;
    waits = λ d. absurd (cc);
    quiet = λ d. is_writing-channel_call c.address disable_all c.channel c.poller;
    shut = λ y. (refl, refl, (s.shut y).2);
  }

  removed-IsSound : (c : TcpConnection k) → IsSound c → IsSound (ask removal c)
  removed-IsSound c s =
      let w = is_writing-channel_call c.address removal c.channel c.poller in
      record {
        input = s.input;
        output = s.output;
        current = (channel_call_lem c.address removal c.channel c.poller s.current).current;
        waits = λ d. w ∙ s.waits d;
        quiet = λ d. w ∙ s.quiet d;
        shut = s.shut;
      }

  opened-IsSound :
      (c : TcpConnection k)
      → IsSound c
      → is_connecting c.state ≡ true
      → is_disconnected c.state ≡ false
      → IsSound (ask enable_reading (record c { state = connected }))
  opened-IsSound c s h d = record {
    input = s.input;
    output = s.output;
    current = (channel_call_lem c.address enable_reading c.channel c.poller s.current).current;
    waits = λ e. is_writing-channel_call c.address enable_reading c.channel c.poller ∙ s.waits d;
    quiet = λ e. absurd (cc);
    shut = λ y. absurd (cc ((s.shut y).0));
  }

  module _ (m : ℕ) (on : Callbacks k) where
    -- `handleClose` on a live connection.
    pub handle_close-Within :
        (c : TcpConnection k)
        → AreBounded m on
        → IsSound c
        → HasRoom m (m + m) c
        → is_live c.state ≡ true
        → Within m (m + m) [] c (handle_close on c)
    unfolding handle_close
    handle_close-Within c a s r h = rw h (
        Within-then m m m [] c
          (notify on.connection (ask disable_all (record c { state = disconnected })))
          (λ c'. notify on.close c') r
          (calls_back m on.connection c _ a.connection (less_room m (m + m) m c (omega arith) r)
            (closed-IsSound c s) refl (omega arith) r.input)
          (λ c' t q. calls_back m on.close c' c' a.close q t refl (omega arith) q.input))

    -- `forceClose` in any state.
    pub force_close-Within :
        (c : TcpConnection k)
        → AreBounded m on
        → IsSound c
        → HasRoom m (m + m) c
        → Within m (m + m) [] c (force_close on c)
    unfolding force_close
    force_close-Within c a s r = elim (Bool-cases (is_live c.state)) [
      | inl h ↦
          let d : TcpConnection k = record c { state = disconnecting } in
          let (c', e, p) =
            handle_close-Within d a (closing-IsSound c s h)
              (record { input = r.input; output = r.output }) refl in
          rw h (c', e, record { sound = p.sound; flow = p.flow; room = p.room; input = p.input })
      | inr h ↦ rw h (stays m (m + m) c c s refl (omega arith) r.input)
    ]

    -- `connectEstablished` on a connection that is connecting.
    pub connect_established-Within :
        (c : TcpConnection k)
        → AreBounded m on
        → IsSound c
        → HasRoom m m c
        → is_connecting c.state ≡ true
        → Within m m [] c (connect_established on c)
    unfolding connect_established
    connect_established-Within c a s r h = rw h (
        calls_back m on.connection c _ a.connection r
          (opened-IsSound c s h (connecting_not c.state h)) refl (omega arith) r.input)

    -- `connectDestroyed` in any state.
    pub connect_destroyed-Within :
        (c : TcpConnection k)
        → AreBounded m on
        → IsSound c
        → HasRoom m m c
        → Within m m [] c (connect_destroyed on c)
    unfolding connect_destroyed
    connect_destroyed-Within c a s r = elim (Bool-cases (is_connected c.state)) [
      | inl h ↦ rw h (
          then_quiet m m [] c
            (notify on.connection (ask disable_all (record c { state = disconnected })))
            (λ c'. some (ask removal c')) r
            (calls_back m on.connection c _ a.connection r (closed-IsSound c s) refl (omega arith)
              r.input)
            (λ c' t q.
              stays m 0 c' (ask removal c') (removed-IsSound c' t) refl (omega arith) q.input))
      | inr h ↦ rw h (stays m m c (ask removal c) (removed-IsSound c s) refl (omega arith) r.input)
    ]
