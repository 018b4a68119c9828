-- ===== src/Http/Server.antt =====
-- src/net/http/http_server.cpp: what the server does with a connection and with its bytes.
--
-- A session is a connection with the context that is stored in it. The handler of requests is an
-- argument: `none` where none is set, and a handler gives `none` where it throws. `none` as a
-- result is an exception or a failed assertion.
pub mod Answers
pub mod Rejects
pub mod Pieces
pub mod KeepAlive
mod Kept
pub mod Site
mod Examples
use agora_im.Shared.{
  ℕ, zero, suc, ◌+◌, ◌-◌, ◌*◌, ◌/◌, ◌%◌, ◌≤◌, ◌<◌, ◌≡◌, ◌≢◌, ◌∙◌, ◌⊎◌, ◌↔◌, ap, refl, sym, Bool,
  true, false, not, ◌&&◌, ◌||◌, Option, none, some, List, [], ◌∷◌, ◌++◌, append-nil, append_assoc,
  ltb, leb, ◌==◌, if◌then◌else◌, Bool-cases, Option-cases, inl, inr, arith, Bytes, codes, length,
  take, drop, length-append, eq_bytes, eq_bytes_iff, Free, ==_iff,
}
use agora_im.Shared.Assertions.{◌>>=◌}
use agora_im.Buffer
use agora_im.Buffer.{Answer}
use agora_im.EPollPoller.{Epoll}
use agora_im.TcpConnection.{TcpConnection, Callbacks, is_connected, send, send_buffer, shutdown}
use agora_im.Http.Request.{HttpRequest}
use agora_im.Http.Response
use agora_im.Http.Response.{HttpResponse, not_found, append_to_buffer}
use agora_im.Http.Context
use agora_im.Http.Context.{Context, parse_request, got_all_test, reset}

pub record Session (k : Epoll) : Type 0 where
  pub connection : TcpConnection k
  pub context : Option Context

abbrev pub Handler : Type 0
Handler = Option (HttpRequest → HttpResponse → Option HttpResponse)

abbrev pub bad_request_text : Bytes
bad_request_text = codes "HTTP/1.1 400 Bad Request\r\n\r\n"

-- The response to a request: what the handler makes of a fresh one.
unfoldable pub answer : Handler → HttpRequest → Option HttpResponse
answer (some f) request = f request (Response.new true)
answer none request =
    some
      (record (Response.new true) { status_code = not_found; status_message = codes "Not Found" })

module _ {k : Epoll} where
  unfoldable pub on_connection : Session k → Session k
  on_connection s =
      if is_connected s.connection.state then record s { context = some Context.new } else s

  -- After a response: whether it closes the connection.
  unfoldable pub conclude : Bool → Context → TcpConnection k → Session k
  conclude true context c = record { connection = shutdown c; context = some context }
  conclude false context c = record { connection = c; context = some (reset context) }

module _ {k : Epoll} (on : Callbacks k) (write : Bytes → Answer ℕ) where
  -- After a line that does not parse.
  unfoldable pub reject : Bool → TcpConnection k → Option (TcpConnection k)
  reject true c = some c
  reject false c = do c' ← send on write bad_request_text c; some (shutdown c')

  module _ (to_string : ℕ → Bytes) (handler : Handler) where
    -- Once a request is complete.
    unfoldable pub respond_to : Context → TcpConnection k → Option (Session k)
    respond_to context c = do
      response ← answer handler context.request
      (c', _) ← send_buffer on write (append_to_buffer to_string response Buffer.new) c
      some (conclude response.close_connection context c')

    unfoldable pub on_message : Session k → Option (Session k)
    on_message s = do
      context ← s.context
      (parsed, context', input) ← parse_request context s.connection.input
      c ← reject parsed (record s.connection { input = input })
      if got_all_test context'
          then respond_to context' c
          else some (record { connection = c; context = some context' })
