-- ===== src/TcpConnection/Invariant.antt =====
-- The invariant of a connection, and the stream of its bytes.
use agora_im.Shared.{
  ◌≡◌, ◌∙◌, ap, refl, sym, true, false, not, Option, none, some, [], ◌++◌, append-nil, append_assoc,
  ◌==◌, Bytes,
}
use agora_im.Buffer.{contents, readable_bytes}
use agora_im.Buffer.Valid.{IsValid}
use agora_im.Channel.{is_writing}
use agora_im.EPollPoller.{Epoll}
use agora_im.EPollPoller.Watched.{Current}
use agora_im.TcpConnection.{
  TcpConnection, Callback, Callbacks, is_connected, is_disconnected, is_connecting, notify,
}

module _ {k : Epoll} where
  -- While it is not disconnected, a connection asks for write events just when output waits; and
  -- its write side is shut only when it is closing with no output left.
  pub record IsSound (c : TcpConnection k) : Type 0 where
    pub input : IsValid c.input
    pub output : IsValid c.output
    pub current : Current c.channel c.poller
    pub waits :
        is_disconnected c.state ≡ false → is_writing c.channel ≡ not (readable_bytes c.output == 0)
    pub quiet : is_disconnected c.state ≡ true → is_writing c.channel ≡ false
    pub shut :
        c.shut ≡ true
        → (is_connecting c.state ≡ false)
          × (is_connected c.state ≡ false)
          × (readable_bytes c.output ≡ 0)

  -- Every byte sent so far, in order: those that the kernel took, and those that wait.
  abbrev pub stream : TcpConnection k → Bytes
  stream c = c.taken ++ contents c.output

  -- The call succeeds, keeps the invariant, and puts just these bytes on the stream, before what a
  -- callback then sends.
  unfoldable pub Sends : Bytes → TcpConnection k → Option (TcpConnection k) → Type 0
  Sends bytes c o =
      (c' : TcpConnection k) × (o ≡ some c')
      × IsSound c'
      × ((more : Bytes) × (stream c' ≡ stream c ++ (bytes ++ more)))

  -- A callback that works on every connection that keeps the invariant, however full its buffers
  -- are: it may shut the connection down or close it, but one that sends needs room, and is Bounded in
  -- the sense of TcpConnection.Within, not harmless. A callback that is not set is harmless.
  abbrev pub Harmless : Callback k → Type 0
  Harmless none = Unit {0}
  Harmless (some f) = (c : TcpConnection k) → IsSound c → Sends [] c (f c)

  pub record AreHarmless (on : Callbacks k) : Type 0 where
    pub connection : Harmless on.connection
    pub message : Harmless on.message
    pub write_complete : Harmless on.write_complete
    pub close : Harmless on.close

  pub Sends-now :
      (bytes : Bytes) (c c' : TcpConnection k)
      → IsSound c'
      → stream c' ≡ stream c ++ bytes
      → Sends bytes c (some c')
  unfolding Sends
  Sends-now bytes c c' s e =
      (c', refl, s, ([], e ∙ ap (λ x. stream c ++ x) (sym (append-nil bytes))))

  pub notify-Sends :
      (bytes : Bytes) (f : Callback k) (c c' : TcpConnection k)
      → Harmless f
      → IsSound c'
      → stream c' ≡ stream c ++ bytes
      → Sends bytes c (notify f c')
  unfolding Sends notify
  notify-Sends bytes none c c' h s e = Sends-now bytes c c' s e
  notify-Sends bytes (some f) c c' h s e =
      let (d, q, t, (more, m)) = h c' s in
      (d, q, t, (more, m ∙ ap (λ x. x ++ more) e ∙ append_assoc (stream c) bytes more))
