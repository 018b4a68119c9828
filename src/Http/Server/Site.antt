-- ===== src/Http/Server/Site.antt =====
-- The server with the handler of the static file server.
use agora_im.Shared.{ℕ, ◌≡◌, ◌∙◌, refl, Bool, true, false, Option, some, List, [], ◌∷◌, ◌++◌, Bytes}
use agora_im.Buffer.{Answer, contents}
use agora_im.EPollPoller.{Epoll}
use agora_im.TcpConnection.{Callbacks, is_connected}
use agora_im.TcpConnection.Invariant.{IsSound, AreHarmless}
use agora_im.Http.Request.{HttpRequest, add_header}
use agora_im.Http.Response
use agora_im.Http.Response.{HttpResponse}
use agora_im.Http.Response.Written.{response_text}
use agora_im.Http.Context
use agora_im.Http.Context.{got_all}
use agora_im.Http.Context.RoundTrip.{Message, written, meant, add_all, IsClean}
use agora_im.Http.StaticFiles.{has_dots, wanted, found, on_request}
use agora_im.Http.StaticFiles.Decode.{encode, IsPlain, AreBytes}
use agora_im.Http.StaticFiles.Reach.{on_request-found}
use agora_im.Http.Server.{Session, answer, on_message}
use agora_im.Http.Server.Answers.{CanSend, Answered, on_message_answers}

path-add_all : (r : HttpRequest) (hs : List (Bytes × Bytes)) → (add_all r hs).path ≡ r.path
unfolding add_all add_header
path-add_all r [] = refl
path-add_all r ((k, v) ∷ hs) = path-add_all (add_header r k v) hs

pub path-meant : (m : Message) → (meant m).path ≡ m.path
unfolding meant
path-meant m = path-add_all _ m.headers

module _ {k : Epoll} (root : Bytes) (files : Bytes → Option Bytes) (on : Callbacks k)
    (write : Bytes → Answer ℕ) (to_string : ℕ → Bytes) where
  -- From the bytes of a request to the bytes of a file: a connected session with a fresh parser, whose
  -- input is a clean request, written out, for the percent-encoded form of a path without `..`,
  -- and any bytes behind it, puts on the stream the response that has the content of that file
  -- under the root directory (of `/index.html` for the path `/`), when it opens, and closes the
  -- connection. The response must fit in the output, `write` must not claim more than it was given,
  -- and the callbacks must be harmless.
  pub on_message_serves :
      (m : Message) (rest : Bytes) (keep : ℕ → Bool) (path content : Bytes) (s : Session k)
      → AreHarmless on
      → IsClean m
      → IsPlain keep
      → AreBytes path
      → has_dots path ≡ false
      → m.path ≡ encode keep path
      → files (root ++ wanted path) ≡ some content
      → s.context ≡ some Context.new
      → IsSound s.connection
      → is_connected s.connection.state ≡ true
      → contents s.connection.input ≡ written m rest
      → CanSend write s.connection
          (response_text to_string (found (root ++ wanted path) content (Response.new true)))
      → (s' : Session k) × (on_message on write to_string (some (on_request root files)) s
          ≡ some s')
        × Answered to_string
            (record { state = got_all; request = meant m })
            s.connection
            (found (root ++ wanted path) content (Response.new true))
            s'
        × (is_connected s'.connection.state ≡ false)
  unfolding answer found Response.add_header Response.new
  on_message_serves m rest keep path content s a clean p b dots q o fresh sound up text can =
      let r = found (root ++ wanted path) content (Response.new true) in
      let served =
        on_request-found root files (meant m) (Response.new true) keep path content p b dots
          (path-meant m ∙ q) o in
      let (s', e, t) =
        on_message_answers to_string on write (some (on_request root files)) m rest r s a clean
          fresh sound up text served can in
      (s', e, t, t.closed refl)
