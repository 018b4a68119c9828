-- ===== src/TcpConnection/Within.antt =====
-- Calls of a connection, and of its callbacks, that have room for what they send.
use agora_im.Shared.{
  ℕ, ◌+◌, ◌≤◌, ◌<◌, ◌≡◌, ◌∙◌, ap, refl, sym, Option, none, some, [], ◌++◌, append-nil, append_assoc,
  arith, Bytes, max_bytes,
}
use agora_im.Shared.Assertions.{◌>>=◌}
use agora_im.Buffer.{readable_bytes}
use agora_im.EPollPoller.{Epoll}
use agora_im.TcpConnection.{TcpConnection, Callback, Callbacks, notify}
use agora_im.TcpConnection.Invariant.{IsSound, stream}

-- `m` bounds the input that waits, and what one callback sends.
module _ {k : Epoll} (m : ℕ) where
  -- At most `m` bytes of input wait, and the output buffer has room for `b` bytes.
  pub record HasRoom (b : ℕ) (c : TcpConnection k) : Type 0 where
    pub input : readable_bytes c.input ≤ m
    pub output : c.output.writer_index + b < max_bytes

  -- The invariant holds; these bytes are on the stream, before what a callback then sent; the output
  -- took up no more than `b` bytes of the room, and no more than `m` bytes of input wait.
  pub record Puts (b : ℕ) (bytes : Bytes) (c c' : TcpConnection k) : Type 0 where
    pub sound : IsSound c'
    pub flow : (more : Bytes) × (stream c' ≡ stream c ++ (bytes ++ more))
    pub room : c'.output.writer_index ≤ c.output.writer_index + b
    pub input : readable_bytes c'.input ≤ m

  -- The call succeeds, and does that.
  abbrev pub Within : ℕ → Bytes → TcpConnection k → Option (TcpConnection k) → Type 0
  Within b bytes c o = (c' : TcpConnection k) × (o ≡ some c') × Puts b bytes c c'

  -- A callback that may send up to `m` bytes, and shut the connection down or close it, wherever
  -- there is room for that.
  abbrev pub Bounded : Callback k → Type 0
  Bounded none = Unit {0}
  Bounded (some f) = (c : TcpConnection k) → IsSound c → HasRoom m c → Within m [] c (f c)

  -- The same for a callback that is called only when input waits.
  abbrev pub BoundedReader : Callback k → Type 0
  BoundedReader none = Unit {0}
  BoundedReader (some f) =
      (c : TcpConnection k)
      → IsSound c
      → HasRoom m c
      → 0 < readable_bytes c.input
      → Within m [] c (f c)

  pub record AreBounded (on : Callbacks k) : Type 0 where
    pub connection : Bounded on.connection
    pub message : BoundedReader on.message
    pub write_complete : Bounded on.write_complete
    pub close : Bounded on.close

  -- Less room is enough for less.
  pub less_room : (a b : ℕ) (c : TcpConnection k) → b ≤ a → HasRoom a c → HasRoom b c
  less_room a b c le r = record { input = r.input; output = omega (arith, r.output, le) }

  -- The room that is left.
  pub room_left :
      (a b : ℕ) (bytes : Bytes) (c c' : TcpConnection k)
      → HasRoom (a + b) c
      → Puts a bytes c c'
      → HasRoom b c'
  room_left a b bytes c c' r p = record {
    input = p.input;
    output = omega (arith, r.output, p.room);
  }

  pub widen :
      (a b : ℕ) (bytes : Bytes) (c : TcpConnection k) (o : Option (TcpConnection k))
      → a ≤ b
      → Within a bytes c o
      → Within b bytes c o
  widen a b bytes c o le (c', e, p) = (
    c',
    e,
    record { sound = p.sound; flow = p.flow; room = omega (arith, p.room, le); input = p.input },
  )

  pub now :
      (b : ℕ) (bytes : Bytes) (c c' : TcpConnection k)
      → IsSound c'
      → stream c' ≡ stream c ++ bytes
      → c'.output.writer_index ≤ c.output.writer_index + b
      → readable_bytes c'.input ≤ m
      → Within b bytes c (some c')
  now b bytes c c' s e w i = (
    c',
    refl,
    record {
      sound = s;
      flow = ([], e ∙ ap (λ x. stream c ++ x) (sym (append-nil bytes)));
      room = w;
      input = i;
    },
  )

  -- A call that sends nothing and leaves the input.
  pub stays :
      (b : ℕ) (c c' : TcpConnection k)
      → IsSound c'
      → stream c' ≡ stream c
      → c'.output.writer_index ≤ c.output.writer_index
      → readable_bytes c'.input ≤ m
      → Within b [] c (some c')
  stays b c c' s e w i = now b [] c c' s (e ∙ sym (append-nil (stream c))) (omega (arith, w)) i

  -- One call, and then another where the first left off.
  pub Within-then :
      (a b : ℕ) (bytes : Bytes) (c : TcpConnection k) (o : Option (TcpConnection k))
      (f : TcpConnection k → Option (TcpConnection k))
      → HasRoom (a + b) c
      → Within a bytes c o
      → ((c' : TcpConnection k) → IsSound c' → HasRoom b c' → Within b [] c' (f c'))
      → Within (a + b) bytes c (o >>= f)
  Within-then a b bytes c o f r (c', q, p) g =
      let (more, e) = p.flow in
      let (d, t, p') = g c' p.sound (room_left a b bytes c c' r p) in
      let (more', e') = p'.flow in
      (
        d,
        rw q t,
        record {
          sound = p'.sound;
          flow = (
            more ++ more',
            e'
                ∙ ap (λ x. x ++ more') e
                ∙ append_assoc (stream c) (bytes ++ more) more'
                ∙ ap (λ x. stream c ++ x) (append_assoc bytes more more'),
          );
          room = omega (arith, p.room, p'.room);
          input = p'.input;
        },
      )

  -- The same when what follows sends nothing.
  pub then_quiet :
      (a : ℕ) (bytes : Bytes) (c : TcpConnection k) (o : Option (TcpConnection k))
      (f : TcpConnection k → Option (TcpConnection k))
      → HasRoom a c
      → Within a bytes c o
      → ((c' : TcpConnection k) → IsSound c' → HasRoom 0 c' → Within 0 [] c' (f c'))
      → Within a bytes c (o >>= f)
  then_quiet a bytes c o f r w g =
      widen (a + 0) a bytes c (o >>= f) (omega arith)
        (Within-then a 0 bytes c o f (less_room a (a + 0) c (omega arith) r) w g)

  -- Some of the stream, and then a callback.
  pub notify-Within :
      (a : ℕ) (bytes : Bytes) (f : Callback k) (c c' : TcpConnection k)
      → Bounded f
      → HasRoom (a + m) c
      → Puts a bytes c c'
      → Within (a + m) bytes c (notify f c')
  unfolding notify
  notify-Within a bytes none c c' h r p =
      widen a (a + m) bytes c (some c') (omega arith) (c', refl, p)
  notify-Within a bytes (some f) c c' h r p =
      Within-then a m bytes c (some c') f r (c', refl, p) (λ d s q. h d s q)

  -- A call that sends nothing and leaves the input, and then a callback.
  pub calls_back :
      (f : Callback k) (c c' : TcpConnection k)
      → Bounded f
      → HasRoom m c
      → IsSound c'
      → stream c' ≡ stream c
      → c'.output.writer_index ≤ c.output.writer_index
      → readable_bytes c'.input ≤ m
      → Within m [] c (notify f c')
  unfolding notify
  calls_back none c c' h r s e w i = stays m c c' s e w i
  calls_back (some f) c c' h r s e w i =
      let (d, q, p) = h c' s (record { input = i; output = omega (arith, r.output, w) }) in
      let (more, flow) = p.flow in
      (
        d,
        q,
        record {
          sound = p.sound;
          flow = (more, flow ∙ ap (λ x. x ++ more) e);
          room = omega (arith, p.room, w);
          input = p.input;
        },
      )

  -- The callback for messages, when input waits.
  pub reader_called :
      (f : Callback k) (c : TcpConnection k)
      → BoundedReader f
      → IsSound c
      → HasRoom m c
      → 0 < readable_bytes c.input
      → Within m [] c (notify f c)
  unfolding notify
  reader_called none c h s r i = stays m c c s refl (omega arith) r.input
  reader_called (some f) c h s r i = h c s r i
