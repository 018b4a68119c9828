-- ===== src/Http/Server/Answers.antt =====
-- A request that is complete, and one that does not parse.
use agora_im.Shared.{
  ℕ, ◌+◌, ◌≤◌, ◌<◌, ◌≡◌, ◌∙◌, ap, refl, Bool, true, false, some, ◌++◌, if◌then◌else◌, Bool-cases,
  inl, inr, arith, Bytes, length,
}
use agora_im.Shared.{max_bytes}
use agora_im.Buffer
use agora_im.Buffer.{Buffer, Answer, moved, contents, retrieve_all}
use agora_im.Buffer.Valid.{IsValid, new-IsValid}
use agora_im.Http.Request.{HttpRequest}
use agora_im.Channel.{is_writing}
use agora_im.EPollPoller.{Epoll}
use agora_im.TcpConnection.{
  shutdown_in_loop, TcpConnection, Callbacks, disconnecting, is_connected, send_buffer, shutdown,
}
use agora_im.TcpConnection.Invariant.{IsSound, stream, Sends, AreHarmless}
use agora_im.TcpConnection.Output.{Fits}
use agora_im.TcpConnection.Sending.{send_in_loop-Sends}
use agora_im.TcpConnection.Reading.{shutdown-IsSound, read-IsSound}
use agora_im.Http.Response.{HttpResponse, append_to_buffer}
use agora_im.Http.Response.Written.{response_text, status_text, append_to_buffer-response_text}
use agora_im.Http.Context
use agora_im.Http.Context.{
  Context, got_all, expect_request_line, parse_request, got_all_test, reset,
}
use agora_im.Http.Context.RoundTrip.{Message, written, meant, IsClean, parse_request-written}
use agora_im.Http.Server.{Session, Handler, answer, reject, conclude, respond_to, on_message}

pub response_some_byte :
    (to_string : ℕ → Bytes) (r : HttpResponse) → 0 < length (response_text to_string r)
unfolding response_text status_text
response_some_byte to_string r = omega arith

pub contents-new : (bytes : Bytes) → contents Buffer.new ++ bytes ≡ bytes
unfolding contents Buffer.new
contents-new bytes = refl

pub small_response :
    {k : Epoll} (bytes : Bytes) (c : TcpConnection k)
    → IsSound c
    → Fits bytes c
    → Buffer.new.writer_index + length bytes < max_bytes
unfolding Buffer.new
small_response bytes c s fits = let v = s.output in omega (arith, v.prepend, v.ordered)

module _ {k : Epoll} where
  shutdown_in_loop_state : (c : TcpConnection k) → (shutdown_in_loop c).state ≡ c.state
  unfolding shutdown_in_loop
  shutdown_in_loop_state c = elim (Bool-cases (is_writing c.channel)) [
    | inl w ↦ rw w refl
    | inr w ↦ rw w refl
  ]

  pub shutdown_closed : (c : TcpConnection k) → is_connected (shutdown c).state ≡ false
  unfolding shutdown
  shutdown_closed c = elim (Bool-cases (is_connected c.state)) [
    | inl h ↦ rw h (ap is_connected (shutdown_in_loop_state (record c { state = disconnecting })))
    | inr h ↦ rw (h, h) refl
  ]

  -- What sending these bytes needs: room in the output, and a `write` that claims no more than it was
  -- given.
  pub record CanSend (write : Bytes → Answer ℕ) (c : TcpConnection k) (bytes : Bytes) : Type 0 where
    pub fits : Fits bytes c
    pub honest : (n : ℕ) → write bytes ≡ moved n → n ≤ length bytes

  -- The call puts the bytes at the end of the stream, before what the callback for complete writes
  -- may send.
  pub record Sent (bytes : Bytes) (c c' : TcpConnection k) : Type 0 where
    pub sound : IsSound c'
    pub flow : (more : Bytes) × (stream c' ≡ stream c ++ (bytes ++ more))

  pub shutdown-Sent :
      (bytes : Bytes) (c c' : TcpConnection k) → Sent bytes c c' → Sent bytes c (shutdown c')
  shutdown-Sent bytes c c' s =
      let (t, e) = shutdown-IsSound c' s.sound in
      record { sound = t; flow = (s.flow.0, e ∙ s.flow.1) }

  module _ (on : Callbacks k) (write : Bytes → Answer ℕ) where
    send_buffer-Sent :
        (b : Buffer) (bytes : Bytes) (c : TcpConnection k)
        → contents b ≡ bytes
        → AreHarmless on
        → IsSound c
        → is_connected c.state ≡ true
        → CanSend write c bytes
        → 0 < length bytes
        → (c' : TcpConnection k) × (send_buffer on write b c ≡ some (c', retrieve_all b))
          × Sent bytes c c'
    unfolding send_buffer Sends
    send_buffer-Sent b bytes c e a s h can some_byte =
        let (c', q, t, flow) =
          send_in_loop-Sends on write bytes c a s h can.fits some_byte can.honest in
        (c', rw (h, e, q) refl, record { sound = t; flow = flow })

  module _ (to_string : ℕ → Bytes) where
    -- The session after this response. The connection is shut, or waits for the next request.
    pub record Answered (context : Context) (c : TcpConnection k) (r : HttpResponse) (s : Session k)
        : Type 0 where
      pub sent : Sent (response_text to_string r) c s.connection
      pub parser : s.context ≡ some (if r.close_connection then context else Context.new)
      pub closed : r.close_connection ≡ true → is_connected s.connection.state ≡ false

    conclude-Sent :
        (close : Bool) (context : Context) (bytes : Bytes) (c c' : TcpConnection k)
        → Sent bytes c c'
        → Sent bytes c (conclude close context c').connection
    unfolding conclude
    conclude-Sent true context bytes c c' s = shutdown-Sent bytes c c' s
    conclude-Sent false context bytes c c' s = s

    conclude_parser :
        (close : Bool) (context : Context) (c : TcpConnection k)
        → (conclude close context c).context ≡ some (if close then context else Context.new)
    unfolding conclude reset
    conclude_parser true context c = refl
    conclude_parser false context c = refl

    conclude_closed :
        (close : Bool) (context : Context) (c : TcpConnection k)
        → close ≡ true
        → is_connected (conclude close context c).connection.state ≡ false
    unfolding conclude
    conclude_closed true context c h = shutdown_closed c
    conclude_closed false context c h = absurd (cc)

    conclude_answers :
        (context : Context) (c c' : TcpConnection k) (r : HttpResponse)
        → Sent (response_text to_string r) c c'
        → Answered context c r (conclude r.close_connection context c')
    conclude_answers context c c' r s = record {
      sent = conclude-Sent r.close_connection context _ c c' s;
      parser = conclude_parser r.close_connection context c';
      closed = conclude_closed r.close_connection context c';
    }

    module _ (on : Callbacks k) (write : Bytes → Answer ℕ) (handler : Handler) where
      respond_to_answers :
          (context : Context) (c : TcpConnection k) (r : HttpResponse)
          → AreHarmless on
          → IsSound c
          → is_connected c.state ≡ true
          → answer handler context.request ≡ some r
          → CanSend write c (response_text to_string r)
          → (s' : Session k) × (respond_to on write to_string handler context c ≡ some s')
            × Answered context c r s'
      unfolding respond_to
      respond_to_answers context c r a sound h e can =
          let (v, t) =
            append_to_buffer-response_text to_string r Buffer.new new-IsValid
              (small_response (response_text to_string r) c sound can.fits) in
          let (c', q, sent) =
            send_buffer-Sent on write (append_to_buffer to_string r Buffer.new)
              (response_text to_string r) c (t ∙ contents-new (response_text to_string r)) a sound h
              can (response_some_byte to_string r) in
          (_, rw (e, q) refl, conclude_answers context c c' r sent)

      -- When the parser completes a request, it is answered.
      pub on_message_completes :
          (context : Context) (request : HttpRequest) (b : Buffer) (r : HttpResponse)
          (s : Session k)
          → AreHarmless on
          → s.context ≡ some context
          → parse_request context s.connection.input
            ≡ some (true, record { state = got_all; request = request }, b)
          → IsValid b
          → IsSound s.connection
          → is_connected s.connection.state ≡ true
          → answer handler request ≡ some r
          → CanSend write s.connection (response_text to_string r)
          → (s' : Session k) × (on_message on write to_string handler s ≡ some s')
            × Answered (record { state = got_all; request = request }) s.connection r s'
      unfolding on_message reject got_all_test
      on_message_completes context request b r s a holds q v sound up e can =
          let c : TcpConnection k = record s.connection { input = b } in
          let (s', p, t) =
            respond_to_answers (record { state = got_all; request = request }) c r a
              (read-IsSound b s.connection v sound) up e
              (record { fits = can.fits; honest = can.honest }) in
          (
            s',
            rw (holds, q) p,
            record {
              sent = record { sound = t.sent.sound; flow = t.sent.flow };
              parser = t.parser;
              closed = t.closed;
            },
          )

      -- A connected session with a fresh parser, whose input is a clean request written out and any
      -- bytes behind it, answers it in one call: `onMessage` fails no assertion, keeps the
      -- connection's invariant, and puts the text of the handler's response at the end of the stream,
      -- before what the callback for complete writes may send; if the response closes, the
      -- connection is not connected afterwards, and otherwise the parser is fresh again. The handler must
      -- return, the text must fit in the output, `write` must not claim more than it was given, and
      -- the callbacks must be harmless.
      pub on_message_answers :
          (m : Message) (rest : Bytes) (r : HttpResponse) (s : Session k)
          → AreHarmless on
          → IsClean m
          → s.context ≡ some Context.new
          → IsSound s.connection
          → is_connected s.connection.state ≡ true
          → contents s.connection.input ≡ written m rest
          → answer handler (meant m) ≡ some r
          → CanSend write s.connection (response_text to_string r)
          → (s' : Session k) × (on_message on write to_string handler s ≡ some s')
            × Answered (record { state = got_all; request = meant m }) s.connection r s'
      on_message_answers m rest r s a clean fresh sound up text e can =
          let (b, q, v, _) =
            parse_request-written m s.connection.input rest clean sound.input text in
          on_message_completes Context.new (meant m) b r s a fresh q v sound up e can
