-- ===== src/Programs/Echo.antt =====
-- examples/echo/echo_server.cpp: the callbacks of the echo server, and the bytes they send back.
use agora_im.Shared.{
  subst, List, [], ◌∷◌, append-nil, append_assoc, sym, ℕ, ◌+◌, ◌≤◌, ◌<◌, ◌≡◌, ◌∙◌, ap, refl, true,
  Option, none, some, ◌++◌, inl, inr, lt→ltb, arith, Bytes, length, length-append, max_bytes,
}
use agora_im.Shared.Assertions.{After, After-some, ◌>>=◌}
use agora_im.Buffer.{Answer, moved, contents, read_fd, read_room, retrieve_all_as_string}
use agora_im.Buffer.Contents.{retrieve_all_as_string_lem}
use agora_im.Buffer.ReadFd.{read_fd_lem}
use agora_im.EPollPoller.{Epoll}
use agora_im.TcpConnection.{
  TcpConnection, Callbacks, is_connected, send, notify, after_read, handle_read,
}
use agora_im.TcpConnection.Invariant.{IsSound, stream}
use agora_im.TcpConnection.Output.{Fits}
use agora_im.TcpConnection.Reading.{read-IsSound}
use agora_im.TcpConnection.Exact.{send-Adds}

module _ {k : Epoll} where
  -- `onConnection` only writes to the log.
  unfoldable pub on_connection : TcpConnection k → Option (TcpConnection k)
  on_connection c = some c

  unfoldable pub on_message :
      Callbacks k → (write : Bytes → Answer ℕ) → TcpConnection k → Option (TcpConnection k)
  on_message on write c = do
    (msg, b) ← retrieve_all_as_string c.input
    send on write msg (record c { input = b })

  -- The callbacks of a connection: those of `main`, and `removeConnection` of the server.
  abbrev pub closing : Option (TcpConnection k → Option (TcpConnection k)) → Callbacks k
  closing close = record {
    connection = some on_connection;
    message = none;
    write_complete = none;
    close = close;
  }

  abbrev pub callbacks :
      Option (TcpConnection k → Option (TcpConnection k)) → (write : Bytes → Answer ℕ) → Callbacks k
  callbacks close write = record (closing close) {
    message = some (on_message (closing close) write);
  }

  -- All input is on the stream, and no input is left.
  pub record Echoes (bytes : Bytes) (c c' : TcpConnection k) : Type 0 where
    pub sound : IsSound c'
    pub flow : stream c' ≡ stream c ++ bytes
    pub same_state : c'.state ≡ c.state
    pub emptied : contents c'.input ≡ []

  -- The echo server's `onMessage` on a connected connection that keeps the invariant puts exactly
  -- its input, of one byte at least, at the end of the stream, and leaves no input.
  pub on_message-Echoes :
      (close : Option (TcpConnection k → Option (TcpConnection k))) (write : Bytes → Answer ℕ)
      (c : TcpConnection k)
      → IsSound c
      → is_connected c.state ≡ true
      → Fits (contents c.input) c
      → 0 < length (contents c.input)
      → ((n : ℕ) → write (contents c.input) ≡ moved n → n ≤ length (contents c.input))
      → (c' : TcpConnection k) × (on_message (closing close) write c ≡ some c')
        × Echoes (contents c.input) c c'
  unfolding on_message
  on_message-Echoes close write c s h fits some_byte honest =
      let (b, q, v, e) = retrieve_all_as_string_lem c.input s.input in
      let (c', p, x) =
        send-Adds (closing close) write (contents c.input) (record c { input = b }) refl
          (read-IsSound b c v s) h fits some_byte honest in
      (
        c',
        rw q p,
        record {
          sound = x.sound;
          flow = x.flow;
          same_state = x.same_state;
          emptied = ap contents x.same_input ∙ e;
        },
      )

  -- Bytes that arrive at a connected connection of the echo server come back: `handleRead`, when
  -- `readv` gives some bytes and no more than it was asked for, puts them, behind any input that
  -- waits, at the end of the stream, keeps the invariant and leaves no input. What it may read and
  -- what it sends must fit in the buffers, and `write` must not claim more than it was given.
  pub handle_read-Echoes :
      (close : Option (TcpConnection k → Option (TcpConnection k))) (write : Bytes → Answer ℕ)
      (readv : ℕ → Answer Bytes) (bytes : Bytes) (c : TcpConnection k)
      → IsSound c
      → is_connected c.state ≡ true
      → readv (read_room c.input) ≡ moved bytes
      → 0 < length bytes
      → ((n : ℕ) (more : Bytes) → readv n ≡ moved more → length more ≤ n)
      → length c.input.buffer + read_room c.input < max_bytes
      → Fits (contents c.input ++ bytes) c
      → ((msg : Bytes) (n : ℕ) → write msg ≡ moved n → n ≤ length msg)
      → (c' : TcpConnection k) × (handle_read (callbacks close write) readv c ≡ some c')
        × Echoes (contents c.input ++ bytes) c c'
  unfolding handle_read after_read notify
  handle_read-Echoes close write readv bytes c s h gives some_byte honest_read small fits honest =
      let (v, r) = read_fd_lem readv c.input s.input honest_read small in
      let b = (read_fd readv c.input).1 in
      elim r [
        | inl (e, q, _) ↦ absurd (cc (q, gives))
        | inr (bytes', q, n, f) ↦
            let same : bytes' ≡ bytes = cc (q, gives) in
            let all : contents b ≡ contents c.input ++ bytes =
              f ∙ ap (λ x. contents c.input ++ x) same in
            let some_bytes : 0 < length bytes' = rw same some_byte in
            let whole : 0 < length (contents c.input ++ bytes) =
              omega (arith, length-append (contents c.input) bytes, some_byte) in
            let (c', p, x) =
              on_message-Echoes close write (record c { input = b }) (read-IsSound b c v s) h
                (rw all fits) (rw all whole) (λ n. honest (contents b) n) in
            (
              c',
              rw (n, lt→ltb 0 (length bytes') some_bytes) p,
              record {
                sound = x.sound;
                flow = x.flow ∙ ap (λ y. stream c ++ y) all;
                same_state = x.same_state;
                emptied = x.emptied;
              },
            )
      ]

-- Bytes that arrive, with what `readv` and `write` do then.
pub record Arrival : Type 0 where
  pub bytes : Bytes
  pub readv : ℕ → Answer Bytes
  pub write : Bytes → Answer ℕ

abbrev pub all_bytes : List Arrival → Bytes
all_bytes [] = []
all_bytes (a ∷ arrivals) = a.bytes ++ all_bytes arrivals

module _ {k : Epoll} (close : Option (TcpConnection k → Option (TcpConnection k))) where
  abbrev pub arrive : Arrival → TcpConnection k → Option (TcpConnection k)
  arrive a c = handle_read (callbacks close a.write) a.readv c

  unfoldable pub serve : List Arrival → TcpConnection k → Option (TcpConnection k)
  serve [] c = some c
  serve (a ∷ arrivals) c = arrive a c >>= λ c'. serve arrivals c'

  -- What a read needs: `readv` gives these bytes, one at least, and no more than it was asked for;
  -- they fit in the buffers; and `write` does not claim more than it was given.
  pub record Fine (a : Arrival) (c : TcpConnection k) : Type 0 where
    pub gives : a.readv (read_room c.input) ≡ moved a.bytes
    pub some_byte : 0 < length a.bytes
    pub honest_read : (n : ℕ) (more : Bytes) → a.readv n ≡ moved more → length more ≤ n
    pub small : length c.input.buffer + read_room c.input < max_bytes
    pub fits : Fits a.bytes c
    pub honest : (msg : Bytes) (n : ℕ) → a.write msg ≡ moved n → n ≤ length msg

  abbrev pub AllFine : List Arrival → TcpConnection k → Type 0
  AllFine [] c = Unit {0}
  AllFine (a ∷ arrivals) c = Fine a c × After (λ c'. AllFine arrivals c') (arrive a c)

  arrive-Echoes :
      (a : Arrival) (c : TcpConnection k)
      → IsSound c
      → is_connected c.state ≡ true
      → contents c.input ≡ []
      → Fine a c
      → (c' : TcpConnection k) × (arrive a c ≡ some c') × Echoes a.bytes c c'
  arrive-Echoes a c s h e f =
      let whole : contents c.input ++ a.bytes ≡ a.bytes = ap (λ x. x ++ a.bytes) e in
      subst (λ x. (c' : TcpConnection k) × (arrive a c ≡ some c') × Echoes x c c') whole
        (handle_read-Echoes close a.write a.readv a.bytes c s h f.gives f.some_byte f.honest_read
          f.small (subst (λ x. Fits x c) (sym whole) f.fits) f.honest)

  -- Whatever arrives in any number of reads comes back: on a connected connection that keeps the
  -- invariant and has no input, the echo server puts on the stream exactly the bytes of all reads, in
  -- order, fails no assertion, and stays connected with no input left.
  pub serve-Echoes :
      (arrivals : List Arrival) (c : TcpConnection k)
      → IsSound c
      → is_connected c.state ≡ true
      → contents c.input ≡ []
      → AllFine arrivals c
      → (d : TcpConnection k) × (serve arrivals c ≡ some d) × Echoes (all_bytes arrivals) c d
  unfolding serve
  serve-Echoes [] c s h e f = (
    c,
    refl,
    record { sound = s; flow = sym (append-nil (stream c)); same_state = refl; emptied = e },
  )
  serve-Echoes (a ∷ arrivals) c s h e f =
      let (c', q, x) = arrive-Echoes a c s h e f.0 in
      let (d, r, y) =
        serve-Echoes arrivals c' x.sound (ap is_connected x.same_state ∙ h) x.emptied
          (After-some (λ z. AllFine arrivals z) (arrive a c) c' q f.1) in
      (
        d,
        ap (λ o. o >>= λ z. serve arrivals z) q ∙ r,
        record {
          sound = y.sound;
          flow =
              y.flow
              ∙ ap (λ z. z ++ all_bytes arrivals) x.flow
              ∙ append_assoc (stream c) a.bytes (all_bytes arrivals);
          same_state = y.same_state ∙ x.same_state;
          emptied = y.emptied;
        },
      )
