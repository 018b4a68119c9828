-- ===== src/Http/Server/Pieces.antt =====
-- A request that comes in two reads.
use agora_im.Shared.{ℕ, ◌+◌, ◌<◌, ◌≡◌, ◌∙◌, ap, refl, true, some, ◌++◌, Bytes, length, max_bytes}
use agora_im.Buffer.{Buffer, Answer, contents, append}
use agora_im.Buffer.Contents.{contents-append}
use agora_im.EPollPoller.{Epoll}
use agora_im.TcpConnection.{Callbacks, is_connected}
use agora_im.TcpConnection.Invariant.{IsSound, AreHarmless}
use agora_im.TcpConnection.Reading.{read-IsSound}
use agora_im.Http.Response.{HttpResponse}
use agora_im.Http.Response.Written.{response_text}
use agora_im.Http.Context
use agora_im.Http.Context.{Context, got_all, got_all_test, parse_request}
use agora_im.Http.Context.Lines.{Parses-unique}
use agora_im.Http.Context.Refine.{parse_request_lem}
use agora_im.Http.Context.RoundTrip.{Message, written, meant, IsClean}
use agora_im.Http.Context.Pieces.{early-Parses}
use agora_im.Http.Server.{Session, Handler, answer, reject, on_message}
use agora_im.Http.Server.Answers.{CanSend, Answered, on_message_completes}

module _ {k : Epoll} where
  -- More bytes have been read into the input.
  abbrev pub receive : Bytes → Session k → Session k
  receive bytes s = record s {
    connection = record s.connection { input = append s.connection.input bytes };
  }

  -- The session waits: only the input and the parser have changed.
  pub record Waits (s s' : Session k) : Type 0 where
    pub input : Buffer
    pub context : Context
    pub only :
        s' ≡ record { connection = record s.connection { input = input }; context = some context }

module _ {k : Epoll} (on : Callbacks k) (write : Bytes → Answer ℕ) (to_string : ℕ → Bytes)
    (handler : Handler) where
  -- A clean request that comes in two reads, each followed by a call of `onMessage`, is answered as
  -- in one: the first call sends nothing and changes only the input and the parser, and the second
  -- puts the text of the handler's response to the whole request at the end of the stream. Some of
  -- the request must be in the second part. The session is connected with a fresh parser, the
  -- handler must return, the bytes must fit in the buffers, `write` must not claim more than it was
  -- given, and the callbacks must be harmless.
  pub on_message_in_two :
      (m : Message) (pre post rest : Bytes) (r : HttpResponse) (s : Session k)
      → AreHarmless on
      → IsClean m
      → pre ++ post ≡ written m rest
      → length rest < length post
      → s.context ≡ some Context.new
      → IsSound s.connection
      → is_connected s.connection.state ≡ true
      → contents s.connection.input ≡ pre
      → ((s₁ : Session k)
          → on_message on write to_string handler s ≡ some s₁
          → s₁.connection.input.writer_index + length post < max_bytes)
      → answer handler (meant m) ≡ some r
      → CanSend write s.connection (response_text to_string r)
      → (s₁ : Session k) × (on_message on write to_string handler s ≡ some s₁)
        × Waits s s₁
        × ((s₂ : Session k) × (on_message on write to_string handler (receive post s₁) ≡ some s₂)
            × Answered to_string (record { state = got_all; request = meant m }) s.connection r s₂)
  unfolding on_message reject
  on_message_in_two m pre post rest r s a clean cut some_more fresh sound up text fits e can =
      let (o, b₁, q, h, p) = parse_request_lem Context.new s.connection.input sound.input in
      let (t, g, f) = early-Parses m pre post rest o clean cut some_more (rw text at p) in
      let s₁ : Session k = record {
        connection = record s.connection { input = b₁ };
        context = some o.1;
      } in
      let first : on_message on write to_string handler s ≡ some s₁ = rw (fresh, q, t, g) refl in
      let (v, w) = contents-append b₁ post h.valid (fits s₁ first) in
      let (o₂, b₂, q₂, h₂, p₂) = parse_request_lem o.1 (append b₁ post) v in
      let all : contents (append b₁ post) ≡ o.2 ++ post = w ∙ ap (λ x. x ++ post) h.same in
      let last = Parses-unique (rw all at p₂) f in
      let (s₂, z, x) =
        on_message_completes to_string on write handler o.1 (meant m) b₂ r (receive post s₁) a refl
          (rw last at q₂) h₂.valid (read-IsSound (append b₁ post) s.connection v sound) up e
          (record { fits = can.fits; honest = can.honest }) in
      (
        s₁,
        first,
        record { input = b₁; context = o.1; only = refl },
        (
          s₂,
          z,
          record {
            sent = record { sound = x.sent.sound; flow = x.sent.flow };
            parser = x.parser;
            closed = x.closed;
          },
        ),
      )
