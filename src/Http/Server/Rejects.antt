-- ===== src/Http/Server/Rejects.antt =====
-- A request that does not parse.
use agora_im.Shared.{ℕ, ◌<◌, ◌≡◌, refl, true, false, some, arith, Bytes, length}
use agora_im.Buffer.{Buffer, Answer}
use agora_im.EPollPoller.{Epoll}
use agora_im.TcpConnection.{TcpConnection, Callbacks, is_connected, send, shutdown}
use agora_im.TcpConnection.Invariant.{IsSound, Sends, AreHarmless}
use agora_im.TcpConnection.Sending.{send_in_loop-Sends}
use agora_im.TcpConnection.Reading.{read-IsSound}
use agora_im.Http.Context.{Context, parse_request}
use agora_im.Http.Context.Refused.{Parses-refuses, refused_not_all}
use agora_im.Http.Context.Refine.{parse_request_returned}
use agora_im.Http.Server.{Session, Handler, bad_request_text, reject, on_message}
use agora_im.Http.Server.Answers.{CanSend, Sent, shutdown-Sent, shutdown_closed}

module _ {k : Epoll} (on : Callbacks k) (write : Bytes → Answer ℕ) where
  send-Sent :
      (bytes : Bytes) (c : TcpConnection k)
      → AreHarmless on
      → IsSound c
      → is_connected c.state ≡ true
      → CanSend write c bytes
      → 0 < length bytes
      → (c' : TcpConnection k) × (send on write bytes c ≡ some c') × Sent bytes c c'
  unfolding send Sends
  send-Sent bytes c a s h can some_byte =
      let (c', q, t, flow) =
        send_in_loop-Sends on write bytes c a s h can.fits some_byte can.honest in
      (c', rw (h, q) refl, record { sound = t; flow = flow })

  module _ (to_string : ℕ → Bytes) (handler : Handler) where
    -- When the parser refuses the input of a connected session, `onMessage` fails no assertion, puts the
    -- text of status 400 at the end of the stream, before what the callback for complete writes may
    -- send, shuts the connection, and answers nothing else, whatever handler is set: the result is
    -- the same for any other one. The text must fit in the output, `write` must not claim more
    -- than it was given, and the callbacks must be harmless.
    pub on_message_rejects :
        (other : Handler) (context context' : Context) (b : Buffer) (s : Session k)
        → AreHarmless on
        → s.context ≡ some context
        → IsSound s.connection
        → is_connected s.connection.state ≡ true
        → parse_request context s.connection.input ≡ some (false, context', b)
        → CanSend write s.connection bad_request_text
        → (s' : Session k) × (on_message on write to_string handler s ≡ some s')
          × (on_message on write to_string other s ≡ some s')
          × Sent bad_request_text s.connection s'.connection
          × (is_connected s'.connection.state ≡ false)
    unfolding on_message reject
    on_message_rejects other context context' b s a fresh sound up parsed can =
        let (v, p) =
          parse_request_returned context context' s.connection.input b false sound.input parsed in
        let c : TcpConnection k = record s.connection { input = b } in
        let (c', q, sent) =
          send-Sent bad_request_text c a (read-IsSound b s.connection v sound) up
            (record { fits = can.fits; honest = can.honest }) (omega arith) in
        let rest = refused_not_all context' (Parses-refuses context context' _ _ p) in
        let t = shutdown-Sent bad_request_text c c' sent in
        (
          record { connection = shutdown c'; context = some context' },
          rw (fresh, parsed, q, rest) refl,
          rw (fresh, parsed, q, rest) refl,
          record { sound = t.sound; flow = t.flow },
          shutdown_closed c',
        )
