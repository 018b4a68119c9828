-- ===== src/TcpConnection/Output.antt =====
-- The output buffer of a connection.
use agora_im.Shared.{
  ==_iff, ℕ, ◌+◌, ◌<◌, ◌≡◌, ◌∙◌, ap, refl, sym, true, false, not, [], ◌∷◌, ◌++◌, append-nil,
  append_assoc, ◌==◌, Bool-cases, inl, inr, arith, Bytes, length, max_bytes, length-append,
}
use agora_im.Buffer.{Buffer, contents, readable_bytes, append}
use agora_im.Buffer.Valid.{IsValid}
use agora_im.Buffer.Contents.{contents-append, length-contents}
use agora_im.Channel.{is_writing}
use agora_im.EPollPoller.{Epoll, enable_writing}
use agora_im.EPollPoller.Calls.{channel_call_lem}
use agora_im.EPollPoller.Masks.{is_writing-channel_call}
use agora_im.TcpConnection.{
  TcpConnection, State, disconnected, connecting, connected, disconnecting, is_connected,
  is_disconnected, ask, queue,
}
use agora_im.TcpConnection.Invariant.{IsSound, stream}

-- How many bytes wait after an append.
readable-append :
    (b : Buffer) (bytes : Bytes)
    → IsValid b
    → b.writer_index + length bytes < max_bytes
    → readable_bytes (append b bytes) ≡ readable_bytes b + length bytes
readable-append b bytes v h =
    let (v', e) = contents-append b bytes v h in
    sym (length-contents (append b bytes) v')
    ∙ ap length e
    ∙ length-append (contents b) bytes
    ∙ ap (λ n. n + length bytes) (length-contents b v)

waits_some : (n m : ℕ) → 0 < m → true ≡ not (n + m == 0)
waits_some n m h = ground arith

pub connected_not : (s : State) → is_connected s ≡ true → is_disconnected s ≡ false
connected_not disconnected h = absurd (cc)
connected_not connecting h = refl
connected_not connected h = refl
connected_not disconnecting h = refl

nil : (xs : Bytes) → length xs ≡ 0 → xs ≡ []
nil [] h = refl
nil (x ∷ xs) h = absurd (omega arith)

pub contents_nil : (b : Buffer) → IsValid b → (readable_bytes b == 0) ≡ true → contents b ≡ []
contents_nil b v h = nil (contents b) (length-contents b v ∙ (==_iff (readable_bytes b) 0).0 h)

module _ {k : Epoll} where
  -- There is room for these bytes in the output buffer.
  abbrev pub Fits : Bytes → TcpConnection k → Type 0
  Fits bytes c = c.output.writer_index + length bytes < max_bytes

  not_shut : (c : TcpConnection k) → IsSound c → is_connected c.state ≡ true → c.shut ≡ false
  not_shut c s h = elim (Bool-cases c.shut) [ inl y ↦ absurd (cc ((s.shut y).1)) | inr n ↦ n ]

  -- `append` and `enableWriting`, for a connected connection and at least one byte.
  pub queue_first :
      (bytes : Bytes) (c : TcpConnection k)
      → IsSound c
      → is_connected c.state ≡ true
      → Fits bytes c
      → 0 < length bytes
      → IsSound (ask enable_writing (queue bytes c))
  queue_first bytes c s h fits some_byte =
      let (v, e) = contents-append c.output bytes s.output fits in
      let n = readable-append c.output bytes s.output fits in
      record {
        input = s.input;
        output = v;
        current = (channel_call_lem c.address enable_writing c.channel c.poller s.current).current;
        waits = λ d.
            is_writing-channel_call c.address enable_writing c.channel c.poller
            ∙ waits_some (readable_bytes c.output) (length bytes) some_byte
            ∙ ap (λ m. not (m == 0)) (sym n);
        quiet = λ d. absurd (cc (connected_not c.state h));
        shut = λ y. absurd (cc (not_shut c s h));
      }

  -- `append` alone, when write events are asked for.
  pub queue_more :
      (bytes : Bytes) (c : TcpConnection k)
      → IsSound c
      → is_connected c.state ≡ true
      → Fits bytes c
      → is_writing c.channel ≡ true
      → 0 < length bytes
      → IsSound (queue bytes c)
  queue_more bytes c s h fits w some_byte =
      let (v, e) = contents-append c.output bytes s.output fits in
      let n = readable-append c.output bytes s.output fits in
      record {
        input = s.input;
        output = v;
        current = s.current;
        waits = λ d.
            w
            ∙ waits_some (readable_bytes c.output) (length bytes) some_byte
            ∙ ap (λ m. not (m == 0)) (sym n);
        quiet = λ d. absurd (cc (connected_not c.state h));
        shut = λ y. absurd (cc (not_shut c s h));
      }

  pub taken-IsSound :
      (bytes : Bytes) (c : TcpConnection k)
      → IsSound c
      → IsSound (record c { taken = c.taken ++ bytes })
  taken-IsSound bytes c s = record {
    input = s.input;
    output = s.output;
    current = s.current;
    waits = s.waits;
    quiet = s.quiet;
    shut = s.shut;
  }

  pub stream-queue :
      (bytes : Bytes) (c : TcpConnection k)
      → IsSound c
      → Fits bytes c
      → stream (queue bytes c) ≡ stream c ++ bytes
  stream-queue bytes c s fits =
      let (v, e) = contents-append c.output bytes s.output fits in
      ap (λ x. c.taken ++ x) e ∙ sym (append_assoc c.taken (contents c.output) bytes)

  -- With no output waiting, what the kernel takes goes to the end of the stream.
  pub stream_taken :
      (bytes : Bytes) (c : TcpConnection k)
      → contents c.output ≡ []
      → stream (record c { taken = c.taken ++ bytes }) ≡ stream c ++ bytes
  stream_taken bytes c e = rw (e, append-nil (c.taken ++ bytes), append-nil c.taken)
