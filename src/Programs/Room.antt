-- ===== src/Programs/Room.antt =====
-- examples/echo/echo_server.cpp: its callbacks are bounded by the input that they find.
use agora_im.Shared.{ℕ, ◌≤◌, ◌<◌, ◌≡◌, ap, refl, [], Bool-cases, inl, inr, arith, Bytes, length}
use agora_im.Buffer.{Buffer, Answer, moved, contents, readable_bytes}
use agora_im.Buffer.Valid.{IsValid}
use agora_im.Buffer.Contents.{retrieve_all_as_string_lem, length-contents}
use agora_im.EPollPoller.{Epoll}
use agora_im.TcpConnection.{TcpConnection, Callback, is_connected, send}
use agora_im.TcpConnection.Invariant.{IsSound}
use agora_im.TcpConnection.Within.{HasRoom, Within, Bounded, AreBounded, stays}
use agora_im.TcpConnection.Reading.{read-IsSound}
use agora_im.TcpConnection.Exact.{send-Adds}
use agora_im.Programs.Echo.{on_connection, on_message, closing, callbacks}

emptied : (b : Buffer) (m : ℕ) → IsValid b → contents b ≡ [] → readable_bytes b ≤ m
emptied b m v e = omega (arith, length-contents b v, ap length e)

module _ {k : Epoll} (m : ℕ) (close : Callback k) (write : Bytes → Answer ℕ) where
  -- The echo of what waits, when that is at most `m` bytes, is at most `m` bytes.
  on_message-Within :
      (c : TcpConnection k)
      → ((msg : Bytes) (n : ℕ) → write msg ≡ moved n → n ≤ length msg)
      → IsSound c
      → HasRoom m m c
      → 0 < readable_bytes c.input
      → Within m m [] c (on_message (closing close) write c)
  unfolding on_message send
  on_message-Within c honest s r some_input =
      let (b, q, v, e) = retrieve_all_as_string_lem c.input s.input in
      let l = length-contents c.input s.input in
      let d : TcpConnection k = record c { input = b } in
      elim (Bool-cases (is_connected c.state)) [
        | inl up ↦
            let (c', p, x) =
              send-Adds (closing close) write (contents c.input) d refl (read-IsSound b c v s) up
                (omega (arith, l, r.output, r.input)) (omega (arith, l, some_input))
                (λ n. honest (contents c.input) n) in
            (
              c',
              rw q p,
              record {
                sound = x.sound;
                flow = (contents c.input, x.flow);
                room = omega (arith, x.grown, l, r.input);
                input = rw x.same_input (emptied b m v e);
              },
            )
        | inr down ↦
            rw (q, down) (stays m m c d (read-IsSound b c v s) refl (omega arith) (emptied b m v e))
      ]

  -- The callbacks of the echo server are bounded, with any bounded callback of the server behind
  -- them, when `write` does not claim more than it was given.
  pub callbacks-AreBounded :
      Bounded m close
      → ((msg : Bytes) (n : ℕ) → write msg ≡ moved n → n ≤ length msg)
      → AreBounded m (callbacks close write)
  unfolding on_connection
  callbacks-AreBounded bounded honest = record {
    connection = λ c s r. stays m m c c s refl (omega arith) r.input;
    message = λ c s r i. on_message-Within c honest s r i;
    write_complete = tt;
    close = bounded;
  }
