-- ===== src/Programs/Client.antt =====
-- examples/echo/echo_client.cpp: the callbacks of the echo client, with the count that `onMessage`
-- keeps.
use agora_im.Shared.{
  ℕ, ◌+◌, ◌≤◌, ◌≡◌, ◌∙◌, ap, refl, sym, true, Option, none, some, [], ◌++◌, if◌then◌else◌, ltb,
  Bool-cases, inl, inr, arith, Bytes, codes, decimal, length, length-append, append-nil,
}
use agora_im.Shared.Assertions.{◌>>=◌}
use agora_im.Buffer.{Answer, moved, retrieve_all_as_string}
use agora_im.Buffer.Contents.{retrieve_all_as_string_lem}
use agora_im.EPollPoller.{Epoll}
use agora_im.TcpConnection.{TcpConnection, Callbacks, is_connected, send, shutdown}
use agora_im.TcpConnection.Invariant.{IsSound, stream}
use agora_im.TcpConnection.Output.{Fits}
use agora_im.TcpConnection.Reading.{read-IsSound, shutdown-IsSound}
use agora_im.TcpConnection.Exact.{send-Adds}
use agora_im.Http.Server.Answers.{shutdown_closed}

module _ (k : Epoll) where
  pub record Client : Type 0 where
    pub count : ℕ
    pub connection : TcpConnection k

abbrev pub greeting : Bytes
greeting = codes "Hello from EchoClient!\n"

abbrev pub message : ℕ → Bytes
message n = codes "Message " ++ decimal n ++ codes "\n"

module _ {k : Epoll} (on : Callbacks k) (write : Bytes → Answer ℕ) where
  unfoldable pub on_connection : TcpConnection k → Option (TcpConnection k)
  on_connection c = if is_connected c.state then send on write greeting c else some c

  unfoldable pub on_message : Client k → Option (Client k)
  on_message s = do
    (msg, b) ← retrieve_all_as_string s.connection.input
    let c : TcpConnection k = record s.connection { input = b }
    let n = s.count + 1
    c' ← (if ltb n 3 then send on write (message n) c else some (shutdown c))
    some (record { count = n; connection = c' })

  -- What an echo leads to: the first two are answered by the next message, and each further one by
  -- the end of the connection, with nothing sent.
  pub record Talks (s s' : Client k) : Type 0 where
    pub sound : IsSound s'.connection
    pub counted : s'.count ≡ s.count + 1
    pub flow :
        stream s'.connection
        ≡ stream s.connection ++ (if ltb (s.count + 1) 3 then message (s.count + 1) else [])
    pub up : is_connected s'.connection.state ≡ ltb (s.count + 1) 3

  -- The echo client's `onMessage`, on a connected connection that keeps the invariant, with no
  -- callback for complete writes.
  pub on_message-Talks :
      (s : Client k)
      → on.write_complete ≡ none
      → IsSound s.connection
      → is_connected s.connection.state ≡ true
      → Fits (message (s.count + 1)) s.connection
      → ((n : ℕ) → write (message (s.count + 1)) ≡ moved n → n ≤ length (message (s.count + 1)))
      → (s' : Client k) × (on_message s ≡ some s') × Talks s s'
  unfolding on_message
  on_message-Talks s unset sound h fits honest =
      let (b, q, v, e) = retrieve_all_as_string_lem s.connection.input sound.input in
      let c : TcpConnection k = record s.connection { input = b } in
      let sound' = read-IsSound b s.connection v sound in
      elim (Bool-cases (ltb (s.count + 1) 3)) [
        | inl more ↦
            let (c', p, x) =
              send-Adds on write (message (s.count + 1)) c unset sound' h fits
                (omega
                  (arith, length-append (codes "Message ") (decimal (s.count + 1) ++ codes "\n")))
                honest in
            (
              record { count = s.count + 1; connection = c' },
              rw (q, more, p) refl,
              record {
                sound = x.sound;
                counted = refl;
                flow = rw more x.flow;
                up = ap is_connected x.same_state ∙ h ∙ sym more;
              },
            )
        | inr last ↦
            let (t, f) = shutdown-IsSound c sound' in
            (
              record { count = s.count + 1; connection = shutdown c },
              rw (q, last) refl,
              record {
                sound = t;
                counted = refl;
                flow = rw last (f ∙ sym (append-nil (stream c)));
                up = shutdown_closed c ∙ sym last;
              },
            )
      ]
