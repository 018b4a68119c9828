-- ===== src/Http/Server/KeepAlive.antt =====
-- Requests one after the other on a connection that stays open.
use agora_im.Shared.{
  ℕ, ◌+◌, ◌≤◌, ◌<◌, ◌≡◌, ◌∙◌, ap, refl, sym, true, false, Option, none, some, List, [], ◌∷◌, ◌++◌,
  append-nil, append_assoc, Bytes, length, max_bytes,
}
use agora_im.Shared.Assertions.{◌>>=◌, After, After-some}
use agora_im.Buffer
use agora_im.Buffer.{Buffer, Answer, moved, contents, append, retrieve_all}
use agora_im.Buffer.Valid.{new-IsValid}
use agora_im.Buffer.Contents.{contents-append}
use agora_im.EPollPoller.{Epoll}
use agora_im.TcpConnection.{TcpConnection, Callbacks, is_connected, send_buffer, send_in_loop}
use agora_im.TcpConnection.Invariant.{IsSound, stream}
use agora_im.TcpConnection.Output.{Fits}
use agora_im.TcpConnection.Reading.{read-IsSound}
use agora_im.TcpConnection.Sending.{Extends}
use agora_im.TcpConnection.Exact.{send_in_loop-Adds}
use agora_im.Http.Response.{HttpResponse}
use agora_im.Http.Response.Written.{response_text, append_to_buffer-response_text}
use agora_im.Http.Context
use agora_im.Http.Context.{Context, got_all, got_all_test, parse_request, reset}
use agora_im.Http.Context.RoundTrip.{Message, written, meant, IsClean, parse_request-written}
use agora_im.Http.Server.{Session, Handler, answer, reject, conclude, respond_to, on_message}
use agora_im.Http.Server.Answers.{response_some_byte, contents-new, small_response}
use agora_im.Http.Server.Pieces.{receive}

-- A request, the response that it gets, and what `write` does then.
pub record Exchange : Type 0 where
  pub message : Message
  pub response : HttpResponse
  pub write : Bytes → Answer ℕ

module _ {k : Epoll} where
  -- The session waits for a request.
  pub record IsReady (s : Session k) : Type 0 where
    pub fresh : s.context ≡ some Context.new
    pub sound : IsSound s.connection
    pub up : is_connected s.connection.state ≡ true
    pub empty : contents s.connection.input ≡ []

module _ {k : Epoll} (on : Callbacks k) (to_string : ℕ → Bytes) (handler : Handler) where
  -- The request arrives in one read.
  abbrev pub take_request : Exchange → Session k → Option (Session k)
  take_request x s = on_message on x.write to_string handler (receive (written x.message []) s)

  unfoldable pub take_requests : List Exchange → Session k → Option (Session k)
  take_requests [] s = some s
  take_requests (x ∷ xs) s = take_request x s >>= λ s'. take_requests xs s'

  abbrev pub responses : List Exchange → Bytes
  responses [] = []
  responses (x ∷ xs) = response_text to_string x.response ++ responses xs

  -- The request is clean, the handler gives this response, which keeps the connection open, both fit
  -- in the buffers, and `write` does not claim more than it was given.
  pub record Fine (x : Exchange) (s : Session k) : Type 0 where
    pub clean : IsClean x.message
    pub answered : answer handler (meant x.message) ≡ some x.response
    pub stays_open : x.response.close_connection ≡ false
    pub input_fits : s.connection.input.writer_index + length (written x.message []) < max_bytes
    pub output_fits : Fits (response_text to_string x.response) s.connection
    pub honest :
        (n : ℕ)
        → x.write (response_text to_string x.response) ≡ moved n
        → n ≤ length (response_text to_string x.response)

  abbrev pub AllFine : List Exchange → Session k → Type 0
  AllFine [] s = Unit {0}
  AllFine (x ∷ xs) s = Fine x s × After (λ s'. AllFine xs s') (take_request x s)

  respond_to_exactly :
      (write : Bytes → Answer ℕ) (context : Context) (c : TcpConnection k) (r : HttpResponse)
      → on.write_complete ≡ none
      → IsSound c
      → is_connected c.state ≡ true
      → answer handler context.request ≡ some r
      → r.close_connection ≡ false
      → Fits (response_text to_string r) c
      → ((n : ℕ)
          → write (response_text to_string r) ≡ moved n
          → n ≤ length (response_text to_string r))
      → (c' : TcpConnection k) × (respond_to on write to_string handler context c
          ≡ some (record { connection = c'; context = some Context.new }))
        × Extends (response_text to_string r) c c'
  unfolding respond_to send_buffer conclude reset
  respond_to_exactly write context c r unset s h e keeps fits honest =
      let (v, t) =
        append_to_buffer-response_text to_string r Buffer.new new-IsValid
          (small_response (response_text to_string r) c s fits) in
      let text = t ∙ contents-new (response_text to_string r) in
      let (c', q, x) =
        send_in_loop-Adds on write (response_text to_string r) c unset s h fits
          (response_some_byte to_string r) honest in
      let sent = ap (λ bytes. send_in_loop on write bytes c) text ∙ q in
      (c', rw (e, h, sent) (ap (λ b. some (conclude b context c')) keeps), x)

  take_request_lem :
      (x : Exchange) (s : Session k)
      → on.write_complete ≡ none
      → IsReady s
      → Fine x s
      → (s' : Session k) × (take_request x s ≡ some s')
        × IsReady s'
        × (stream s'.connection ≡ stream s.connection ++ response_text to_string x.response)
  unfolding on_message reject got_all_test
  take_request_lem x s unset ready fine =
      let wire = written x.message [] in
      let (v, e) = contents-append s.connection.input wire ready.sound.input fine.input_fits in
      let input = append s.connection.input wire in
      let text : contents input ≡ wire = e ∙ ap (λ y. y ++ wire) ready.empty in
      let (b, q, w, rest) = parse_request-written x.message input [] fine.clean v text in
      let c : TcpConnection k = record s.connection { input = b } in
      let (c', p, y) =
        respond_to_exactly x.write (record { state = got_all; request = meant x.message }) c
          x.response unset (read-IsSound b s.connection w ready.sound) ready.up fine.answered
          fine.stays_open fine.output_fits fine.honest in
      (
        record { connection = c'; context = some Context.new },
        rw (ready.fresh, q) p,
        record {
          fresh = refl;
          sound = y.sound;
          up = ap is_connected y.same_state ∙ ready.up;
          empty = ap contents y.same_input ∙ rest;
        },
        y.flow,
      )

  -- Any number of clean requests, each arriving in its own read on a connection that waits for one,
  -- are answered one by one: the stream has just the texts of the handler's responses more, in the
  -- order of the requests, and the connection waits for the next request, connected, with a fresh
  -- parser and no input left. The responses keep the connection open, no callback for complete
  -- writes is set, and requests and responses fit in the buffers.
  pub take_requests-IsReady :
      (xs : List Exchange) (s : Session k)
      → on.write_complete ≡ none
      → IsReady s
      → AllFine xs s
      → (s' : Session k) × (take_requests xs s ≡ some s')
        × IsReady s'
        × (stream s'.connection ≡ stream s.connection ++ responses xs)
  unfolding take_requests
  take_requests-IsReady [] s unset ready fine =
      (s, refl, ready, sym (append-nil (stream s.connection)))
  take_requests-IsReady (x ∷ xs) s unset ready fine =
      let (s', q, ready', e) = take_request_lem x s unset ready fine.0 in
      let (t, r, last, f) =
        take_requests-IsReady xs s' unset ready'
          (After-some (λ z. AllFine xs z) (take_request x s) s' q fine.1) in
      (
        t,
        ap (λ o. o >>= λ z. take_requests xs z) q ∙ r,
        last,
        f
            ∙ ap (λ z. z ++ responses xs) e
            ∙ append_assoc (stream s.connection) (response_text to_string x.response)
                (responses xs),
      )
