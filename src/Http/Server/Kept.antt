-- ===== src/Http/Server/Kept.antt =====
-- A connection that stays open, at work.
use agora_im.Shared.{
  ◌≤◌, ap, arith, ℕ, ◌≡◌, refl, true, false, none, some, List, [], ◌∷◌, ◌++◌, Bytes, codes, length,
  if◌then◌else◌, ◌==◌,
}
use agora_im.Shared.{eq_bytes, split_at, overwrite}
use agora_im.Buffer
use agora_im.Buffer.{
  Answer, failed, moved, contents, readable_bytes, append, put, find_crlf, search_crlf, peek,
  peek_range, retrieve, retrieve_until, retrieve_all,
}
use agora_im.Buffer.Valid.{new-IsValid}
use agora_im.Channel.{bits, added, is_writing}
use agora_im.EPollPoller.Simulated.{epoll}
use agora_im.TcpConnection.{
  Callbacks, connected, send_buffer, send_in_loop, wrote, after_send, notify,
}
use agora_im.TcpConnection.Invariant.{stream}
use agora_im.Http.Request.{get, http11}
use agora_im.Http.Response
use agora_im.Http.Response.{HttpResponse, ok, append_to_buffer}
use agora_im.Http.Response.Written.{
  response_text, status_text, headers_text, header_text, length_text, connection_text,
}
use agora_im.Http.Response.{
  append_status, append_length, append_header, append_headers, append_connection,
}
use agora_im.Http.Context.{set_version, set_target, read_header}
use agora_im.Http.Context.{got_all_test}
use agora_im.Http.Context
use agora_im.Http.Context.{
  parse_request, loop, round_in, read_request_line, process_request_line, process_target, method_of,
  buffer_line, reset,
}
use agora_im.Http.Context.RoundTrip.{Message, written, request_line, header_lines, IsClean}
use agora_im.Http.Server.{Session, Handler, answer, on_message, respond_to, conclude, reject}
use agora_im.Http.Server.KeepAlive.{
  Exchange, IsReady, AllFine, take_requests, responses, take_requests-IsReady,
}

abbrev waiting : Session epoll
waiting = record {
  connection = record {
    state = connected;
    address = 64;
    channel = record {
      fd = 7;
      events = bits true true false false false;
      revents = bits false false false false false;
      index = added;
    };
    poller = record {
      kernel = λ fd. some (bits true true false false false);
      channels = λ fd. some 64;
      errors = 0;
    };
    input = Buffer.new;
    output = Buffer.new;
    taken = [];
    shut = false;
  };
  context = some Context.new;
}

waiting-IsReady : IsReady {k = epoll} waiting
unfolding readable_bytes Buffer.new is_writing contents
waiting-IsReady = record {
  fresh = refl;
  sound = record {
    input = new-IsValid;
    output = new-IsValid;
    current = refl;
    waits = λ d. refl;
    quiet = λ d. absurd (cc);
    shut = λ y. absurd (cc);
  };
  up = refl;
  empty = refl;
}

abbrev unset : Callbacks epoll
unset = record { connection = none; message = none; write_complete = none; close = none }

abbrev takes_all : Bytes → Answer ℕ
takes_all bytes = moved (length bytes)

abbrev amount : Answer ℕ → ℕ
amount (failed e) = 0
amount (moved n) = n

takes_all_honest : (bytes : Bytes) (n : ℕ) → takes_all bytes ≡ moved n → n ≤ length bytes
takes_all_honest bytes n e = omega (arith, ap amount e)

-- The numbers that occur, in decimal.
abbrev to_string : ℕ → Bytes
to_string n = if n == 200 then codes "200" else codes "3"

-- A handler that keeps the connection open.
abbrev says_hi : Handler
says_hi = some (λ request r.
    some (record r { status_code = ok; close_connection = false; body = codes "hi!" }))

abbrev hi : HttpResponse
hi = record {
  status_code = ok;
  status_message = [];
  close_connection = false;
  headers = [];
  body = codes "hi!";
}

abbrev asked : Bytes → Message
asked path = record { method = get; version = http11; path = path; query = none; headers = [] }

abbrev exchange : Bytes → Exchange
exchange path = record { message = asked path; response = hi; write = takes_all }

abbrev two : List Exchange
two = exchange (codes "/a") ∷ exchange (codes "/b") ∷ []

asked-IsClean : (n : ℕ) → b'a' ≤ n → IsClean (asked (b'/' ∷ n ∷ []))
asked-IsClean n h = record {
  method_known = λ e. cc;
  version_known = λ e. cc;
  path_clean = omega (arith, h);
  query_clean = tt;
  headers_clean = tt;
}

two_fine : AllFine {k = epoll} unset to_string says_hi two waiting
unfolding Buffer.new answer Response.new response_text status_text headers_text header_text
    length_text connection_text written request_line header_lines on_message reject parse_request
    loop round_in read_request_line process_request_line process_target method_of buffer_line
    find_crlf search_crlf peek peek_range readable_bytes retrieve retrieve_until split_at eq_bytes
    append put overwrite respond_to send_buffer send_in_loop wrote after_send notify conclude reset
    is_writing contents got_all_test append_to_buffer retrieve_all set_version set_target
    read_header append_status append_length append_header append_headers append_connection
two_fine = (
  record {
    clean = asked-IsClean b'a' (omega arith);
    answered = refl;
    stays_open = refl;
    input_fits = omega arith;
    output_fits = omega arith;
    honest = takes_all_honest (response_text to_string hi);
  },
  (
    record {
      clean = asked-IsClean b'b' (omega arith);
      answered = refl;
      stays_open = refl;
      input_fits = omega arith;
      output_fits = omega arith;
      honest = takes_all_honest (response_text to_string hi);
    },
    tt,
  ),
)

take_requests-IsReady_example :
    (s' : Session epoll) × (take_requests {k = epoll} unset to_string says_hi two waiting ≡ some s')
    × IsReady s'
    × (stream s'.connection
        ≡ stream waiting.connection ++ responses {k = epoll} unset to_string says_hi two)
take_requests-IsReady_example =
    take_requests-IsReady {k = epoll} unset to_string says_hi two waiting refl waiting-IsReady
      two_fine
