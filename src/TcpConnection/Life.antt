-- ===== src/TcpConnection/Life.antt =====
-- A connection from its constructor on: any sequence of calls and events.
use agora_im.Shared.{
  ℕ, ◌+◌, ◌≤◌, ◌<◌, ◌≡◌, ◌∙◌, ap, refl, sym, true, false, not, ◌&&◌, Option, none, some, List, [],
  ◌∷◌, ◌++◌, append-nil, append_assoc, if◌then◌else◌, Bool-cases, inl, inr, Bytes, length,
  max_bytes, arith,
}
use agora_im.Shared.Assertions.{After, After-some, ◌>>=◌}
use agora_im.Buffer.{Answer, moved, readable_bytes, read_room}
use agora_im.Buffer.Valid.{new-IsValid}
use agora_im.Channel.{Events, is_writing}
use agora_im.EPollPoller.{Epoll, Poller}
use agora_im.TcpConnection.{
  TcpConnection, Callbacks, connecting, is_connected, is_connecting, is_live, connect_established,
  connect_destroyed, shutdown, shutdown_in_loop, force_close, send, send_in_loop, handle_events,
}
use agora_im.TcpConnection.Invariant.{IsSound, stream}
use agora_im.TcpConnection.Within.{HasRoom, Puts, Within, AreBounded, stays, notify-Within, widen}
use agora_im.TcpConnection.Sending.{send_in_loop-Ways}
use agora_im.TcpConnection.Closing.{
  force_close-Within, connect_established-Within, connect_destroyed-Within,
}
use agora_im.TcpConnection.Reading.{shutdown-IsSound}
use agora_im.TcpConnection.Dispatch.{handle_events-Within}
use agora_im.Buffer
use agora_im.Channel

-- What the owner of a connection and its loop call.
pub data Call : Type 0 where
  establishes destroys shuts_down closes : Call
  sends : (write : Bytes → Answer ℕ) → Bytes → Call
  meets_events : (readv : ℕ → Answer Bytes) → (write : Bytes → Answer ℕ) → Events → Call

module _ {k : Epoll} where
  -- The constructor, for a channel at an address.
  unfoldable pub new : (address sockfd : ℕ) → Poller k → TcpConnection k
  new address sockfd p = record {
    state = connecting;
    address = address;
    channel = Channel.new sockfd;
    poller = p;
    input = Buffer.new;
    output = Buffer.new;
    taken = [];
    shut = false;
  }

  -- A connection on a descriptor that the kernel does not watch keeps the invariant.
  pub new-IsSound :
      (address sockfd : ℕ) (p : Poller k)
      → k.watched p.kernel sockfd ≡ none
      → IsSound (new address sockfd p)
  unfolding new Channel.new Buffer.new readable_bytes is_writing
  new-IsSound address sockfd p h = record {
    input = new-IsValid;
    output = new-IsValid;
    current = h;
    waits = λ d. refl;
    quiet = λ d. refl;
    shut = λ y. absurd (cc);
  }

module _ {k : Epoll} where
  shutdown_buffers :
      (c : TcpConnection k) → ((shutdown c).input ≡ c.input) × ((shutdown c).output ≡ c.output)
  unfolding shutdown shutdown_in_loop
  shutdown_buffers c = elim (Bool-cases (is_connected c.state)) [
    | inl h ↦ elim (Bool-cases (is_writing c.channel)) [
      | inl w ↦ rw (h, w) (refl, refl)
      | inr w ↦ rw (h, w) (refl, refl)
    ]
    | inr h ↦ rw h (refl, refl)
  ]

  -- `sendInLoop`, and the callback for complete writes.
  send_in_loop-Within :
      (m : ℕ) (on : Callbacks k) (write : Bytes → Answer ℕ) (bytes : Bytes) (c : TcpConnection k)
      → AreBounded m on
      → IsSound c
      → HasRoom m (length bytes + m) c
      → is_connected c.state ≡ true
      → 0 < length bytes
      → ((n : ℕ) → write bytes ≡ moved n → n ≤ length bytes)
      → Within m (length bytes + m) bytes c (send_in_loop on write bytes c)
  send_in_loop-Within m on write bytes c a s r h some_byte honest =
      let (c', x, way) =
        send_in_loop-Ways on write bytes c s h (omega (arith, r.output)) some_byte honest in
      let p : Puts m (length bytes) bytes c c' = record {
        sound = x.sound;
        flow = ([], x.flow ∙ ap (λ y. stream c ++ y) (sym (append-nil bytes)));
        room = x.grown;
        input = rw x.same_input r.input;
      } in
      elim way [
        | inl e ↦ widen m (length bytes) (length bytes + m) bytes c _ (omega arith) (c', e, p)
        | inr e ↦
            rw e (notify-Within m (length bytes) bytes on.write_complete c c' a.write_complete r p)
      ]

module _ {k : Epoll} (on : Callbacks k) where
  abbrev pub perform : Call → TcpConnection k → Option (TcpConnection k)
  perform establishes c = connect_established on c
  perform destroys c = connect_destroyed on c
  perform shuts_down c = some (shutdown c)
  perform closes c = force_close on c
  perform (sends write bytes) c = send on write bytes c
  perform (meets_events readv write e) c = handle_events on readv write e c

  unfoldable pub run : List Call → TcpConnection k → Option (TcpConnection k)
  run [] c = some c
  run (call ∷ calls) c = perform call c >>= λ c'. run calls c'

  -- The bytes that a call puts on the stream: those of a `send` while the connection is up.
  abbrev pub accepted : Call → TcpConnection k → Bytes
  accepted (sends write bytes) c = if is_connected c.state then bytes else []
  accepted establishes c = []
  accepted destroys c = []
  accepted shuts_down c = []
  accepted closes c = []
  accepted (meets_events readv write e) c = []

  -- How many bytes a call may put in the output, its callbacks included, when each sends at most `m`.
  abbrev pub cost : ℕ → Call → ℕ
  cost m establishes = m
  cost m destroys = m
  cost m shuts_down = 0
  cost m closes = m + m
  cost m (sends write bytes) = length bytes + m
  cost m (meets_events readv write e) = m + m + m

  -- When a call may come: `connectEstablished` while connecting, events while live. The kernel takes
  -- and gives no more than it was asked to, and no more than `m` bytes of input wait. A hangup with
  -- urgent data and no input does not come.
  abbrev pub Suits : ℕ → Call → TcpConnection k → Type 0
  Suits m establishes c = is_connecting c.state ≡ true
  Suits m destroys c = Unit {0}
  Suits m shuts_down c = Unit {0}
  Suits m closes c = Unit {0}
  Suits m (sends write bytes) c =
      (0 < length bytes) × ((n : ℕ) → write bytes ≡ moved n → n ≤ length bytes)
  Suits m (meets_events readv write e) c =
      (is_live c.state ≡ true)
      × ((e.hangup && not e.input && e.priority) ≡ false)
      × ((n : ℕ) (bytes : Bytes) → readv n ≡ moved bytes → length bytes ≤ n)
      × (length c.input.buffer + read_room c.input < max_bytes)
      × (readable_bytes c.input + read_room c.input ≤ m)

  -- The calls may come one after the other, and the output has room for each.
  abbrev pub Mays : ℕ → List Call → TcpConnection k → Type 0
  Mays m [] c = Unit {0}
  Mays m (call ∷ calls) c =
      HasRoom m (cost m call) c × Suits m call c × After (λ c'. Mays m calls c') (perform call c)

  -- The stream goes on with what each call put there, in order; callbacks may send in between.
  abbrev pub Goes : List Call → TcpConnection k → Bytes → Type 0
  Goes [] c later = Unit {0}
  Goes (call ∷ calls) c later =
      (c' : TcpConnection k) × (perform call c ≡ some c')
      × ((more rest : Bytes) × (later ≡ accepted call c ++ (more ++ rest)) × Goes calls c' rest)

  perform-Within :
      (m : ℕ) (call : Call) (c : TcpConnection k)
      → AreBounded m on
      → IsSound c
      → HasRoom m (cost m call) c
      → Suits m call c
      → Within m (cost m call) (accepted call c) c (perform call c)
  unfolding send
  perform-Within m establishes c a s r h = connect_established-Within m on c a s r h
  perform-Within m destroys c a s r h = connect_destroyed-Within m on c a s r
  perform-Within m shuts_down c a s r h =
      let (t, e) = shutdown-IsSound c s in
      let (i, o) = shutdown_buffers c in
      stays m 0 c (shutdown c) t e (omega (arith, ap (λ b. b.writer_index) o)) (rw i r.input)
  perform-Within m closes c a s r h = force_close-Within m on c a s r
  perform-Within m (meets_events readv write e) c a s r h =
      handle_events-Within m on readv write e c a s r h.0 h.1 h.2 h.3 h.4
  perform-Within m (sends write bytes) c a s r h = elim (Bool-cases (is_connected c.state)) [
    | inl up ↦ rw up (send_in_loop-Within m on write bytes c a s r up h.0 h.1)
    | inr up ↦ rw up (stays m (length bytes + m) c c s refl (omega arith) r.input)
  ]

  -- A run of calls and events, in any order in which each may come, on a connection that keeps the
  -- invariant, fails no assertion and keeps the invariant. The stream of bytes grows by what each
  -- `send` was given while the connection was up, in the order of the calls. The callbacks may send,
  -- shut the connection down and close it: each keeps the invariant and sends at most `m` bytes
  -- wherever the output has room for them and no more than `m` bytes of input wait, and that for
  -- messages only when some do. At each call the output must have room for its bytes and those of its
  -- callbacks, and no more than `m` bytes of input may wait.
  pub run-Goes :
      (m : ℕ) (calls : List Call) (c : TcpConnection k)
      → AreBounded m on
      → IsSound c
      → Mays m calls c
      → (d : TcpConnection k) × (run calls c ≡ some d)
        × IsSound d
        × ((later : Bytes) × (stream d ≡ stream c ++ later) × Goes calls c later)
  unfolding run
  run-Goes m [] c a s h = (c, refl, s, ([], sym (append-nil (stream c)), tt))
  run-Goes m (call ∷ calls) c a s h =
      let (c', q, p) = perform-Within m call c a s h.0 h.1 in
      let (more, e) = p.flow in
      let (d, r, t, (rest, f, g)) =
        run-Goes m calls c' a p.sound
          (After-some (λ x. Mays m calls x) (perform call c) c' q h.2) in
      (
        d,
        ap (λ o. o >>= λ x. run calls x) q ∙ r,
        t,
        (
          accepted call c ++ (more ++ rest),
          f
              ∙ ap (λ x. x ++ rest) e
              ∙ append_assoc (stream c) (accepted call c ++ more) rest
              ∙ ap (λ x. stream c ++ x) (append_assoc (accepted call c) more rest),
          (c', q, (more, rest, refl, g)),
        ),
      )
