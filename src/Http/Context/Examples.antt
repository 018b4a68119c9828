-- ===== src/Http/Context/Examples.antt =====
-- Runs of the parser, and its theorems at concrete requests.
use agora_im.Shared.{
  ◌+◌, ◌≡◌, refl, arith, true, [], ◌∷◌, ◌++◌, some, Bytes, length, split_at, codes, eq_bytes,
  replicate,
}
use agora_im.Buffer.{
  Buffer, contents, append, peek, peek_range, readable_bytes, find_crlf, search_crlf, retrieve,
  retrieve_until,
}
use agora_im.Buffer.Valid.{IsValid}
use agora_im.Http.Request.{get, put, http10, http11, add_header, get_header, assign, find}
use agora_im.Http.Context.{
  Context, expect_headers, got_all, Outcome, new, parse_request, loop, round_in, read_request_line,
  read_header, process_request_line, process_target, set_target, set_version, method_of,
  buffer_line,
}
use agora_im.Http.Context.Lines.{Parses}
use agora_im.Http.Context.Refine.{Holds, parse_request_lem}
use agora_im.Http.Context.Streaming.{parse_request-append}
use agora_im.Http.Context.RoundTrip.{
  Message, written, request_line, header_lines, meant, add_all, IsClean, parse_request-written,
}

-- A buffer that has just received a text.
abbrev received : Bytes → Buffer
received s = record { buffer = replicate 8 0 ++ s; reader_index = 8; writer_index = 8 + length s }

abbrev first_read : Buffer
first_read = received (codes "GET /a?b HTTP/1.0\r\nHo")

abbrev after_first : Context
after_first = record {
  state = expect_headers;
  request = record {
    method = get;
    version = http10;
    path = codes "/a";
    query = codes "b";
    headers = [];
  };
}

parses_first_line :
    parse_request new first_read ≡ some (true, after_first, record first_read { reader_index = 27 })
unfolding parse_request loop round_in read_request_line read_header process_request_line
    process_target set_target set_version method_of split_at eq_bytes buffer_line find_crlf
    search_crlf contents peek peek_range readable_bytes retrieve retrieve_until
parses_first_line = refl

parse_request-append_example :
    (o : Outcome Bytes) × (b₁ : Buffer) × (b₂ : Buffer) × (parse_request after_first
        (append (record first_read { reader_index = 27 }) (codes "st: x\r\n\r\n"))
      ≡ some (o.0, o.1, b₁))
    × (parse_request new (append first_read (codes "st: x\r\n\r\n")) ≡ some (o.0, o.1, b₂))
    × (contents b₁ ≡ o.2)
    × (contents b₂ ≡ o.2)
parse_request-append_example =
    parse_request-append new after_first first_read (record first_read { reader_index = 27 }) true
      (codes "st: x\r\n\r\n") (omega arith) (omega arith) (omega arith) parses_first_line

abbrev message : Message
message = record {
  method = put;
  version = http11;
  path = codes "/log";
  query = some (codes "n=1");
  headers = (codes "A", codes " 1") ∷ (codes "A", codes "2") ∷ [];
}

message-IsClean : IsClean message
message-IsClean = record {
  method_known = λ e. cc;
  version_known = λ e. cc;
  path_clean = omega arith;
  query_clean = omega arith;
  headers_clean = omega arith;
}

abbrev wire : Buffer
wire = received (codes "PUT /log?n=1 HTTP/1.1\r\nA: 1\r\nA:2\r\n\r\nGET ")

contents-wire : contents wire ≡ written message (codes "GET ")
unfolding contents written request_line header_lines
contents-wire = refl

parse_request-written_example :
    (b' : Buffer) × (parse_request new wire
      ≡ some (true, record { state = got_all; request = meant message }, b'))
    × IsValid b'
    × (contents b' ≡ codes "GET ")
parse_request-written_example =
    parse_request-written message wire (codes "GET ") message-IsClean (omega arith) contents-wire

-- The blank behind the colon stays in the value.
meant_header : get_header (meant message) (codes "A") ≡ codes "2"
unfolding meant add_all add_header get_header assign find eq_bytes
meant_header = refl

parse_request_lem_example :
    (o : Outcome Bytes) × (b' : Buffer) × (parse_request new wire ≡ some (o.0, o.1, b'))
    × Holds b' o.2
    × Parses new (contents wire) o
parse_request_lem_example = parse_request_lem new wire (omega arith)
