-- ===== src/Http/Server/Examples.antt =====
-- A server at work.
use agora_im.Shared.{
  ℕ, ◌+◌, ◌≤◌, ◌<◌, ◌≡◌, ap, refl, Bool, true, false, not, ◌&&◌, Option, none, some, [], ◌∷◌, ◌++◌,
  ◌==◌, if◌then◌else◌, arith, Bytes, codes, length, eq_bytes, split_at,
}
use agora_im.Shared.{replicate}
use agora_im.Buffer
use agora_im.Buffer.{
  Buffer, Answer, moved, contents, peek, peek_range, readable_bytes, find_crlf, search_crlf,
  retrieve, retrieve_until,
}
use agora_im.Buffer.Valid.{new-IsValid}
use agora_im.Channel.{bits, added, is_writing}
use agora_im.EPollPoller.Simulated.{epoll}
use agora_im.TcpConnection.{Callbacks, connected, is_connected}
use agora_im.TcpConnection.Invariant.{IsSound, AreHarmless}
use agora_im.Http.Mime.{get_type, extension, type_of_extension}
use agora_im.Http.Request.{assign, get, http11}
use agora_im.Http.Response
use agora_im.Http.Response.{HttpResponse, ok}
use agora_im.Http.Response.Written.{
  response_text, status_text, headers_text, header_text, length_text, connection_text,
}
use agora_im.Http.Context
use agora_im.Http.Context.{
  Context, expect_request_line, got_all, parse_request, loop, round_in, read_request_line,
  process_request_line, process_target, method_of, buffer_line,
}
use agora_im.Http.Context.RoundTrip.{Message, written, request_line, header_lines, meant, IsClean}
use agora_im.Http.StaticFiles.{has_dots, wanted, found, on_request}
use agora_im.Http.StaticFiles.Decode.{encode, hex}
use agora_im.Http.Server.{Session, Handler, bad_request_text, answer, on_message}
use agora_im.Http.Server.Answers.{CanSend, Sent, Answered, on_message_answers}
use agora_im.Http.Server.Rejects.{on_message_rejects}
use agora_im.Shared.{max_bytes}
use agora_im.Http.Context.{got_all_test}
use agora_im.Http.Server.{reject}
use agora_im.Http.Server.Pieces.{Waits, receive, on_message_in_two}
use agora_im.Http.Server.Site.{on_message_serves}

-- The kernel takes all bytes.
abbrev takes_all : Bytes → Answer ℕ
takes_all bytes = moved (length bytes)

abbrev amount : Answer ℕ → ℕ
amount (Answer.failed e) = 0
amount (moved n) = n

takes_all_honest : (bytes : Bytes) (n : ℕ) → takes_all bytes ≡ moved n → n ≤ length bytes
takes_all_honest bytes n e = omega (arith, ap amount e)

-- A buffer that has just received a text.
abbrev received : Bytes → Buffer
received s = record { buffer = replicate 8 0 ++ s; reader_index = 8; writer_index = 8 + length s }

-- A connected session on descriptor 7, which waits to read and has sent nothing.
abbrev session : Bytes → Session epoll
session s = record {
  connection = record {
    state = connected;
    address = 64;
    channel = record {
      fd = 7;
      events = bits true true false false false;
      revents = bits false false false false false;
      index = added;
    };
    poller = record {
      kernel = λ fd. some (bits true true false false false);
      channels = λ fd. some 64;
      errors = 0;
    };
    input = received s;
    output = Buffer.new;
    taken = [];
    shut = false;
  };
  context = some Context.new;
}

session-IsSound : (s : Bytes) → length s < 1000 → IsSound {k = epoll} (session s).connection
unfolding readable_bytes Buffer.new is_writing
session-IsSound s h = record {
  input = omega (arith, h);
  output = new-IsValid;
  current = refl;
  waits = λ d. refl;
  quiet = λ d. absurd (cc);
  shut = λ y. absurd (cc);
}

abbrev unset : Callbacks epoll
unset = record { connection = none; message = none; write_complete = none; close = none }

unset-AreHarmless : AreHarmless {k = epoll} unset
unset-AreHarmless = record { connection = tt; message = tt; write_complete = tt; close = tt }

-- The numbers that occur, in decimal.
abbrev to_string : ℕ → Bytes
to_string n = if n == 200 then codes "200" else codes "3"

can_send : (s bytes : Bytes) → length bytes < 1000 → CanSend takes_all (session s).connection bytes
unfolding Buffer.new
can_send s bytes h = record { fits = omega (arith, h); honest = takes_all_honest bytes }

abbrev message : Message
message = record {
  method = get;
  version = http11;
  path = codes "/a%20b.css";
  query = none;
  headers = (codes "Host", codes " x") ∷ [];
}

message-IsClean : IsClean message
message-IsClean = record {
  method_known = λ e. cc;
  version_known = λ e. cc;
  path_clean = omega arith;
  query_clean = tt;
  headers_clean = omega arith;
}

abbrev wire : Bytes
wire = codes "GET /a%20b.css HTTP/1.1\r\nHost: x\r\n\r\n"

contents-wire : contents (received wire) ≡ written message []
unfolding contents written request_line header_lines
contents-wire = refl

-- A handler that keeps the connection open.
abbrev says_hi : Handler
says_hi = some (λ request r.
    some (record r { status_code = ok; close_connection = false; body = codes "hi!" }))

abbrev hi : HttpResponse
hi = record {
  status_code = ok;
  status_message = [];
  close_connection = false;
  headers = [];
  body = codes "hi!";
}

answer-hi : answer says_hi (meant message) ≡ some hi
unfolding answer Response.new
answer-hi = refl

hi_short : length (response_text to_string hi) < 1000
unfolding response_text status_text headers_text header_text length_text connection_text
hi_short = omega arith

on_message_answers_example :
    (s' : Session epoll) × (on_message unset takes_all to_string says_hi (session wire) ≡ some s')
    × Answered to_string
        (record { state = got_all; request = meant message })
        (session wire).connection
        hi
        s'
on_message_answers_example =
    on_message_answers {k = epoll} to_string unset takes_all says_hi message [] hi (session wire)
      unset-AreHarmless message-IsClean refl (session-IsSound wire (omega arith)) refl contents-wire
      answer-hi (can_send wire (response_text to_string hi) hi_short)

-- There is no such method.
abbrev bad_wire : Bytes
bad_wire = codes "FOO / HTTP/1.1\r\n"

refused_parse :
    parse_request Context.new (received bad_wire) ≡ some (false, Context.new, received bad_wire)
unfolding parse_request loop round_in read_request_line process_request_line method_of buffer_line
    find_crlf search_crlf contents peek peek_range readable_bytes retrieve retrieve_until split_at
    eq_bytes
refused_parse = refl

on_message_rejects_example :
    (s' : Session epoll) × (on_message unset takes_all to_string says_hi (session bad_wire)
      ≡ some s')
    × (on_message unset takes_all to_string none (session bad_wire) ≡ some s')
    × Sent bad_request_text (session bad_wire).connection s'.connection
    × (is_connected s'.connection.state ≡ false)
on_message_rejects_example =
    on_message_rejects {k = epoll} unset takes_all to_string says_hi none Context.new Context.new
      (received bad_wire) (session bad_wire) unset-AreHarmless refl
      (session-IsSound bad_wire (omega arith)) refl refused_parse
      (can_send bad_wire bad_request_text (omega arith))

-- A blank in a name is encoded.
abbrev keeps : ℕ → Bool
keeps c = not (c == b'%') && not (c == b'+') && not (c == b' ')

abbrev name : Bytes
name = codes "/a b.css"

name_encoded : message.path ≡ encode keeps name
unfolding encode hex
name_encoded = refl

name_dots : has_dots name ≡ false
unfolding has_dots
name_dots = refl

abbrev root : Bytes
root = codes "/srv"

abbrev files : Bytes → Option Bytes
files path = if eq_bytes path (codes "/srv/a b.css") then some (codes "p{}") else none

name_file : files (root ++ wanted name) ≡ some (codes "p{}")
unfolding wanted eq_bytes
name_file = refl

abbrev style : HttpResponse
style = found (root ++ wanted name) (codes "p{}") (Response.new true)

style_short : length (response_text to_string style) < 1000
unfolding response_text status_text headers_text header_text length_text connection_text found
    wanted eq_bytes Response.new Response.add_header assign get_type extension type_of_extension
style_short = omega arith

on_message_serves_example :
    (s' : Session epoll) × (on_message unset takes_all to_string
        (some (on_request root files))
        (session wire)
      ≡ some s')
    × Answered to_string
        (record { state = got_all; request = meant message })
        (session wire).connection
        style
        s'
    × (is_connected s'.connection.state ≡ false)
on_message_serves_example =
    on_message_serves {k = epoll} root files unset takes_all to_string message [] keeps name
      (codes "p{}") (session wire) unset-AreHarmless message-IsClean
      (record { percent = refl; plus = refl }) (omega arith) name_dots name_encoded name_file refl
      (session-IsSound wire (omega arith)) refl contents-wire
      (can_send wire (response_text to_string style) style_short)

-- The same request in two parts.
abbrev first_part : Bytes
first_part = codes "GET /a%20b.cs"

abbrev second_part : Bytes
second_part = codes "s HTTP/1.1\r\nHost: x\r\n\r\n"

parts-wire : first_part ++ second_part ≡ written message []
unfolding written request_line header_lines
parts-wire = refl

abbrev written_to : Option (Session epoll) → ℕ
written_to none = 0
written_to (some s) = s.connection.input.writer_index

room_for_second :
    (s₁ : Session epoll)
    → on_message unset takes_all to_string says_hi (session first_part) ≡ some s₁
    → s₁.connection.input.writer_index + length second_part < max_bytes
unfolding on_message reject got_all_test parse_request loop round_in read_request_line buffer_line
    find_crlf search_crlf contents peek peek_range readable_bytes
room_for_second s₁ e = omega (arith, ap written_to e)

contents_first : contents (received first_part) ≡ first_part
unfolding contents
contents_first = refl

on_message_in_two_example :
    (s₁ : Session epoll) × (on_message unset takes_all to_string says_hi (session first_part)
      ≡ some s₁)
    × Waits (session first_part) s₁
    × ((s₂ : Session epoll) × (on_message unset takes_all to_string says_hi (receive second_part s₁)
          ≡ some s₂)
        × Answered to_string
            (record { state = got_all; request = meant message })
            (session first_part).connection
            hi
            s₂)
on_message_in_two_example =
    on_message_in_two {k = epoll} unset takes_all to_string says_hi message first_part second_part
      [] hi (session first_part) unset-AreHarmless message-IsClean parts-wire (omega arith) refl
      (session-IsSound first_part (omega arith)) refl contents_first room_for_second answer-hi
      (can_send first_part (response_text to_string hi) hi_short)
