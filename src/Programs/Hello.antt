-- ===== src/Programs/Hello.antt =====
-- main.cpp: the handler of requests that the HTTP server is given.
use agora_im.Shared.{
  ℕ, ◌≡◌, ap, refl, true, false, Option, some, if◌then◌else◌, Bytes, codes, eq_bytes, Bool-cases,
  inl, inr,
}
use agora_im.Buffer.{Answer, contents}
use agora_im.EPollPoller.{Epoll}
use agora_im.TcpConnection.{Callbacks, is_connected}
use agora_im.TcpConnection.Invariant.{IsSound, AreHarmless}
use agora_im.Http.Request.{HttpRequest}
use agora_im.Http.Response
use agora_im.Http.Response.{HttpResponse, ok, not_found, add_header}
use agora_im.Http.Response.Written.{response_text}
use agora_im.Http.Context
use agora_im.Http.Context.{got_all}
use agora_im.Http.Context.RoundTrip.{Message, written, meant, IsClean}
use agora_im.Http.Server.{Session, answer, on_message}
use agora_im.Http.Server.Answers.{CanSend, Answered, on_message_answers}
use agora_im.Http.Server.Site.{path-meant}

-- `setStatusCode`, `setStatusMessage`, `setContentType` and `setBody`, one after the other.
abbrev pub page : Bytes → Bytes → HttpResponse → HttpResponse
page content_type body r =
    let r₁ : HttpResponse = record r { status_code = ok; status_message = codes "OK" } in
    let r₂ : HttpResponse = add_header (codes "Content-Type") content_type r₁ in
    record r₂ { body = body }

abbrev pub missing : HttpResponse → HttpResponse
missing r = record r {
  status_code = not_found;
  status_message = codes "Not Found";
  body = codes "404 Not Found";
}

-- The response for a path.
unfoldable pub response_for : Bytes → HttpResponse → HttpResponse
response_for path r =
    if eq_bytes path (codes "/")
    then page (codes "text/html") (codes "<h1>Hello, AgoraIM!</h1>") r
    else if eq_bytes path (codes "/hello")
    then page (codes "text/plain") (codes "Hello, World!") r
    else missing r

unfoldable pub handler : HttpRequest → HttpResponse → Option HttpResponse
handler request r = some (response_for request.path r)

closes : (path : Bytes) → (response_for path (Response.new true)).close_connection ≡ true
unfolding response_for add_header Response.new
closes path = elim (Bool-cases (eq_bytes path (codes "/"))) [
  | inl a ↦ rw a refl
  | inr a ↦ elim (Bool-cases (eq_bytes path (codes "/hello"))) [
    | inl b ↦ rw (a, b) refl
    | inr b ↦ rw (a, b) refl
  ]
]

module _ {k : Epoll} (on : Callbacks k) (write : Bytes → Answer ℕ) (to_string : ℕ → Bytes) where
  -- The program of `main.cpp`: a connected session with a fresh parser, whose input is a clean
  -- request, written out, and any bytes behind it, puts on the stream the response for the
  -- request's path, and the connection is not connected afterwards. The response must fit in the
  -- output, `write` must not claim more than it was given, and the callbacks must be harmless.
  pub on_message_greets :
      (m : Message) (rest : Bytes) (s : Session k)
      → AreHarmless on
      → IsClean m
      → s.context ≡ some Context.new
      → IsSound s.connection
      → is_connected s.connection.state ≡ true
      → contents s.connection.input ≡ written m rest
      → CanSend write s.connection
          (response_text to_string (response_for m.path (Response.new true)))
      → (s' : Session k) × (on_message on write to_string (some handler) s ≡ some s')
        × Answered to_string
            (record { state = got_all; request = meant m })
            s.connection
            (response_for m.path (Response.new true))
            s'
        × (is_connected s'.connection.state ≡ false)
  unfolding answer handler
  on_message_greets m rest s a clean fresh sound up text can =
      let r = response_for m.path (Response.new true) in
      let (s', e, t) =
        on_message_answers to_string on write (some handler) m rest r s a clean fresh sound up text
          (ap (λ p. some (response_for p (Response.new true))) (path-meant m)) can in
      (s', e, t, t.closed (closes m.path))
