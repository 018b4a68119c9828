-- ===== src/TcpConnection/Sending.antt =====
-- `send` and what it calls.
use agora_im.Shared.{
  ap₂, Option, ◌⊎◌, ◌+◌, Option-cases, lt→ltb, leb→le, leb→lt, leb, take_all, take-append-drop,
  length-drop, take, drop, sub_size, ℕ, ◌≤◌, ◌<◌, ◌≡◌, ◌∙◌, ap, refl, true, false, not, some, [],
  ◌++◌, append_assoc, ◌==◌, Bool-cases, inl, inr, arith, Bytes, length,
}
use agora_im.Buffer.Valid.{writer_index-append}
use agora_im.Buffer.{append, contents, readable_bytes, Answer, failed, moved}
use agora_im.Channel.{is_writing}
use agora_im.EPollPoller.{Epoll, enable_writing}
use agora_im.TcpConnection.{
  after_send, TcpConnection, Callbacks, is_connected, notify, ask, queue, wrote, send_in_loop,
}
use agora_im.TcpConnection.Invariant.{IsSound, stream, Sends, AreHarmless, Sends-now, notify-Sends}
use agora_im.TcpConnection.Output.{
  connected_not, contents_nil, Fits, queue_first, queue_more, taken-IsSound, stream-queue,
  stream_taken,
}

module _ {k : Epoll} where
  -- The connection has just these bytes more on the stream; it is in the same state, with the same
  -- input.
  pub record Extends (bytes : Bytes) (c c' : TcpConnection k) : Type 0 where
    pub sound : IsSound c'
    pub flow : stream c' ≡ stream c ++ bytes
    pub same_state : c'.state ≡ c.state
    pub same_input : c'.input ≡ c.input
    pub grown : c'.output.writer_index ≤ c.output.writer_index + length bytes

  module _ (on : Callbacks k) where
    -- The call puts the bytes on the stream, and then it is done, or the callback for complete writes
    -- is all that is left.
    abbrev pub Ways : Bytes → TcpConnection k → Option (TcpConnection k) → Type 0
    Ways bytes c o =
        (c' : TcpConnection k) × Extends bytes c c'
        × ((o ≡ some c') ⊎ (o ≡ notify on.write_complete c'))

    -- What the call does when all was taken, and when some is left.
    wrote_all :
        (n : ℕ) (bytes : Bytes) (c : TcpConnection k)
        → sub_size (length bytes) n ≡ 0
        → wrote on n bytes c
          ≡ notify on.write_complete (record c { taken = c.taken ++ take n bytes })
    unfolding wrote notify
    wrote_all n bytes c z = elim (Option-cases (on.write_complete)) [
      | inl e ↦ rw (z, e)
      | inr (f, e) ↦ rw (z, e)
    ]

    wrote_part :
        (n : ℕ) (bytes : Bytes) (c : TcpConnection k)
        → 0 < sub_size (length bytes) n
        → wrote on n bytes c
          ≡ some (
              ask enable_writing
                (queue (drop n bytes) (record c { taken = c.taken ++ take n bytes })))
    unfolding wrote
    wrote_part n bytes c z =
        let e : (sub_size (length bytes) n == 0) ≡ false = ground arith in
        rw (e, lt→ltb 0 (sub_size (length bytes) n) z)

    wrote-Ways :
        (n : ℕ) (bytes : Bytes) (c : TcpConnection k)
        → IsSound c
        → is_connected c.state ≡ true
        → Fits bytes c
        → contents c.output ≡ []
        → n ≤ length bytes
        → Ways bytes c (wrote on n bytes c)
    wrote-Ways n bytes c s h fits e le =
        let c' : TcpConnection k = record c { taken = c.taken ++ take n bytes } in
        let s' = taken-IsSound (take n bytes) c s in
        let flow = stream_taken (take n bytes) c e in
        elim (Bool-cases (leb (length bytes) n)) [
          | inl all ↦
              let z : sub_size (length bytes) n ≡ 0 = omega (arith, leb→le _ _ all) in
              (
                c',
                record {
                  sound = s';
                  flow = flow ∙ ap (λ x. stream c ++ x) (take_all n bytes (leb→le _ _ all));
                  same_state = refl;
                  same_input = refl;
                  grown = omega arith;
                },
                inr (wrote_all n bytes c z),
              )
          | inr part ↦
              let more = leb→lt _ _ part in
              let z : 0 < sub_size (length bytes) n = omega (arith, more) in
              let room = length-drop n bytes in
              let fits' : Fits (drop n bytes) c' = omega (arith, room) in
              (
                ask enable_writing (queue (drop n bytes) c'),
                record {
                  sound = queue_first (drop n bytes) c' s' h fits' (omega (arith, room, more));
                  flow =
                      stream-queue (drop n bytes) c' s' fits'
                      ∙ ap (λ x. x ++ drop n bytes) flow
                      ∙ append_assoc (stream c) (take n bytes) (drop n bytes)
                      ∙ ap (λ x. stream c ++ x) (take-append-drop n bytes);
                  same_state = refl;
                  same_input = refl;
                  grown = omega (arith, room, writer_index-append c.output (drop n bytes) s.output);
                },
                inl (wrote_part n bytes c z),
              )
        ]

    queued :
        (bytes : Bytes) (c c' : TcpConnection k)
        → IsSound c
        → IsSound c'
        → Fits bytes c
        → c'.taken ≡ c.taken
        → c'.output ≡ append c.output bytes
        → c'.state ≡ c.state
        → c'.input ≡ c.input
        → Extends bytes c c'
    queued bytes c c' s s' fits t o q i = record {
      sound = s';
      flow = ap₂ (λ x b. x ++ contents b) t o ∙ stream-queue bytes c s fits;
      same_state = q;
      same_input = i;
      grown = rw o (writer_index-append c.output bytes s.output);
    }

    after_send-Ways :
        (r : Answer ℕ) (bytes : Bytes) (c : TcpConnection k)
        → IsSound c
        → is_connected c.state ≡ true
        → Fits bytes c
        → contents c.output ≡ []
        → 0 < length bytes
        → ((n : ℕ) → r ≡ moved n → n ≤ length bytes)
        → Ways bytes c (after_send on r bytes c)
    unfolding after_send
    after_send-Ways (failed errno) bytes c s h fits e some_byte honest =
        let c' = ask enable_writing (queue bytes c) in
        let s' = queue_first bytes c s h fits some_byte in
        (c', queued bytes c c' s s' fits refl refl refl refl, inl refl)
    after_send-Ways (moved n) bytes c s h fits e some_byte honest =
        wrote-Ways n bytes c s h fits e (honest n refl)

    -- `sendInLoop` on a connected connection that keeps the invariant puts its bytes, all of
    -- them, at the end of the stream: the kernel takes a part, none, or all of them, and the rest
    -- waits behind what waited before. It keeps the invariant and fails no assertion before the
    -- callback for complete writes, which comes last, if it comes. The bytes must fit in the buffer,
    -- there must be one at least, and `write` must not claim more than it was given.
    pub send_in_loop-Ways :
        (write : Bytes → Answer ℕ) (bytes : Bytes) (c : TcpConnection k)
        → IsSound c
        → is_connected c.state ≡ true
        → Fits bytes c
        → 0 < length bytes
        → ((n : ℕ) → write bytes ≡ moved n → n ≤ length bytes)
        → Ways bytes c (send_in_loop on write bytes c)
    unfolding send_in_loop
    send_in_loop-Ways write bytes c s h fits some_byte honest =
        let up = connected_not c.state h in
        let w = s.waits up in
        elim (Bool-cases (readable_bytes c.output == 0)) [
          | inl none_waits ↦
              let e = contents_nil c.output s.output none_waits in
              let idle : is_writing c.channel ≡ false = w ∙ ap not none_waits in
              rw (up, idle, none_waits)
                (after_send-Ways (write bytes) bytes c s h fits e some_byte honest)
          | inr waiting ↦
              let busy : is_writing c.channel ≡ true = w ∙ ap not waiting in
              let s' = queue_more bytes c s h fits busy some_byte in
              rw (up, busy)
                (
                  queue bytes c,
                  queued bytes c (queue bytes c) s s' fits refl refl refl refl,
                  inl refl,
                )
        ]

    -- The same, with a callback for complete writes that works on every sound connection.
    pub send_in_loop-Sends :
        (write : Bytes → Answer ℕ) (bytes : Bytes) (c : TcpConnection k)
        → AreHarmless on
        → IsSound c
        → is_connected c.state ≡ true
        → Fits bytes c
        → 0 < length bytes
        → ((n : ℕ) → write bytes ≡ moved n → n ≤ length bytes)
        → Sends bytes c (send_in_loop on write bytes c)
    send_in_loop-Sends write bytes c a s h fits some_byte honest =
        let (c', x, way) = send_in_loop-Ways write bytes c s h fits some_byte honest in
        elim way [
          | inl e ↦ rw e (Sends-now bytes c c' x.sound x.flow)
          | inr e ↦ rw e (notify-Sends bytes on.write_complete c c' a.write_complete x.sound x.flow)
        ]
