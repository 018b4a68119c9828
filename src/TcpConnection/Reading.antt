-- ===== src/TcpConnection/Reading.antt =====
-- `handleRead`, and `shutdown`.
use agora_im.Shared.{
  ap, ◌∙◌, length-append, ℕ, ◌+◌, ◌≤◌, ◌<◌, ◌≡◌, refl, sym, true, [], Bool-cases, inl, inr, Bytes,
  length, ltb, ltb→lt, arith, max_bytes,
}
use agora_im.Buffer.{contents, Buffer, Answer, failed, moved, readable_bytes, read_fd, read_room}
use agora_im.Buffer.Valid.{IsValid}
use agora_im.Buffer.Contents.{length-contents}
use agora_im.Buffer.ReadFd.{read_fd_lem}
use agora_im.EPollPoller.{Epoll}
use agora_im.TcpConnection.{
  TcpConnection, Callbacks, State, disconnected, connecting, connected, disconnecting, is_connected,
  is_live, notify, shutdown, after_read, handle_read,
}
use agora_im.TcpConnection.Invariant.{IsSound, stream}
use agora_im.TcpConnection.Within.{
  HasRoom, Within, AreBounded, less_room, widen, stays, reader_called,
}
use agora_im.TcpConnection.Closing.{shutdown_in_loop-IsSound, closing-IsSound, handle_close-Within}

pub connected_live : (s : State) → is_connected s ≡ true → is_live s ≡ true
connected_live disconnected h = absurd (cc)
connected_live connecting h = absurd (cc)
connected_live connected h = refl
connected_live disconnecting h = absurd (cc)

abbrev answered : Answer ℕ → ℕ
answered (failed errno) = 0
answered (moved n) = n

-- What waits after `readFd`: no more than there was room for, and something when it read something.
read_input :
    (readv : ℕ → Answer Bytes) (b : Buffer)
    → IsValid b
    → ((n : ℕ) (bytes : Bytes) → readv n ≡ moved bytes → length bytes ≤ n)
    → length b.buffer + read_room b < max_bytes
    → (readable_bytes (read_fd readv b).1 ≤ readable_bytes b + read_room b)
      × ((n : ℕ) → (read_fd readv b).0 ≡ moved n → 0 < n → 0 < readable_bytes (read_fd readv b).1)
read_input readv b valid honest small =
    let (v, r) = read_fd_lem readv b valid honest small in
    elim r [
      | inl (errno, _, e) ↦
          let same = ap (λ x. readable_bytes x.1) e in
          (omega (arith, same), λ n q. absurd (cc (ap (λ x. x.0) e, q)))
      | inr (bytes, q, n, e) ↦
          let most = honest (read_room b) bytes q in
          let waits : readable_bytes (read_fd readv b).1 ≡ readable_bytes b + length bytes =
            sym (length-contents (read_fd readv b).1 v)
            ∙ ap length e
            ∙ length-append (contents b) bytes
            ∙ ap (λ x. x + length bytes) (length-contents b valid) in
          (
            omega (arith, waits, most),
            λ k p some. omega (arith, waits, ap answered (sym n ∙ p), some),
          )
    ]

module _ {k : Epoll} where
  -- `shutdown` in any state that keeps the invariant keeps it, so that it shuts the write side
  -- only when no output waits, and loses no byte of the stream.
  pub shutdown-IsSound :
      (c : TcpConnection k) → IsSound c → IsSound (shutdown c) × (stream (shutdown c) ≡ stream c)
  unfolding shutdown
  shutdown-IsSound c s = elim (Bool-cases (is_connected c.state)) [
    | inl h ↦ rw h (
        shutdown_in_loop-IsSound (record c { state = disconnecting })
          (closing-IsSound c s (connected_live c.state h)) refl)
    | inr h ↦ rw h (s, refl)
  ]

  pub read-IsSound :
      (b : Buffer) (c : TcpConnection k) → IsValid b → IsSound c → IsSound (record c { input = b })
  read-IsSound b c v s = record {
    input = v;
    output = s.output;
    current = s.current;
    waits = s.waits;
    quiet = s.quiet;
    shut = s.shut;
  }

  module _ (m : ℕ) (on : Callbacks k) where
    after_read-Within :
        (r : Answer ℕ) (c : TcpConnection k)
        → AreBounded m on
        → IsSound c
        → HasRoom m (m + m) c
        → is_live c.state ≡ true
        → ((n : ℕ) → r ≡ moved n → 0 < n → 0 < readable_bytes c.input)
        → Within m (m + m) [] c (after_read on r c)
    unfolding after_read
    after_read-Within (failed errno) c a s room h some_input =
        stays m (m + m) c c s refl (omega arith) room.input
    after_read-Within (moved n) c a s room h some_input = elim (Bool-cases (ltb 0 n)) [
      | inl p ↦ rw p (
          widen m m (m + m) [] c (notify on.message c) (omega arith) (
            reader_called m on.message c a.message s (less_room m (m + m) m c (omega arith) room)
              (some_input n refl (ltb→lt 0 n p))))
      | inr p ↦ rw p (handle_close-Within m on c a s room h)
    ]

    -- `handleRead` on a live connection fails no assertion, whether it reads, fails or finds the end
    -- of the input and closes; it keeps the invariant, and only callbacks add to the stream.
    pub handle_read-Within :
        (readv : ℕ → Answer Bytes) (c : TcpConnection k)
        → AreBounded m on
        → IsSound c
        → HasRoom m (m + m) c
        → is_live c.state ≡ true
        → ((n : ℕ) (bytes : Bytes) → readv n ≡ moved bytes → length bytes ≤ n)
        → length c.input.buffer + read_room c.input < max_bytes
        → readable_bytes c.input + read_room c.input ≤ m
        → Within m (m + m) [] c (handle_read on readv c)
    unfolding handle_read
    handle_read-Within readv c a s room h honest small most =
        let (v, r) = read_fd_lem readv c.input s.input honest small in
        let b = (read_fd readv c.input).1 in
        let d : TcpConnection k = record c { input = b } in
        let (fits, some_input) = read_input readv c.input s.input honest small in
        let (c', e, p) =
          after_read-Within (read_fd readv c.input).0 d a (read-IsSound b c v s)
            (record { input = omega (arith, fits, most); output = room.output }) h some_input in
        (c', e, record { sound = p.sound; flow = p.flow; room = p.room; input = p.input })
