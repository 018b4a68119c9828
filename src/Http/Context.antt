-- ===== src/Http/Context.antt =====
-- include/agora/net/http/http_context.h and src/net/http/http_context.cpp: the incremental parser
-- of requests. `std::find` over `[start, end)` gives the bytes on both sides of what it finds.
pub mod Lines
pub mod Refused
pub mod Refine
pub mod Streaming
pub mod Pieces
pub mod RoundTrip
mod Examples
use agora_im.Shared.{
  ℕ, zero, suc, ◌+◌, ◌≡◌, Bool, true, false, List, [], ◌∷◌, ◌++◌, Option, none, some, Bytes, codes,
  eq_bytes, split_at, if◌then◌else◌, sub_size,
}
use agora_im.Buffer.{Buffer, readable_bytes, peek, peek_range, find_crlf, retrieve_until}
use agora_im.Http.Request.{
  Method, get, post, head, put, delete, Version, http10, http11, HttpRequest, empty_request,
  add_header,
}

pub data ParseState : Type 0 where
  expect_request_line expect_headers expect_body got_all : ParseState

pub record Context : Type 0 where
  pub state : ParseState
  pub request : HttpRequest

abbrev pub new : Context
new = record { state = expect_request_line; request = empty_request }

-- `reset`: the request is swapped with a fresh one.
unfoldable pub reset : Context → Context
reset c = record { state = expect_request_line; request = empty_request }

unfoldable pub got_all_test : Context → Bool
got_all_test c = elim c.state [ got_all ↦ true | _ ↦ false ]

unfoldable pub method_of : Bytes → Option Method
method_of s =
    if eq_bytes s (codes "GET")
    then some get
    else if eq_bytes s (codes "POST")
    then some post
    else if eq_bytes s (codes "HEAD")
    then some head
    else if eq_bytes s (codes "PUT")
    then some put
    else if eq_bytes s (codes "DELETE")
    then some delete
    else none

-- Lines 81 to 87: the path, and the query behind the first `?`.
unfoldable pub set_target : HttpRequest → Bytes → HttpRequest
set_target r target = elim (split_at b'?' target) [
  | none ↦ record r { path = target }
  | some (path, query) ↦ record r { path = path; query = query }
]

-- Lines 89 to 96.
unfoldable pub set_version : HttpRequest → Bytes → Bool × HttpRequest
set_version r s =
    if eq_bytes s (codes "HTTP/1.1")
    then (true, record r { version = http11 })
    else if eq_bytes s (codes "HTTP/1.0")
    then (true, record r { version = http10 })
    else (false, r)

-- The target and the version, behind the method.
unfoldable pub process_target : HttpRequest → Bytes → Bool × HttpRequest
process_target r s = elim (split_at b' ' s) [
  | none ↦ (false, r)
  | some (target, version) ↦ set_version (set_target r target) version
]

-- A line that is refused may have set fields of the request.
unfoldable pub process_request_line : HttpRequest → Bytes → Bool × HttpRequest
process_request_line r line = elim (split_at b' ' line) [
  | none ↦ (false, r)
  | some (method, rest) ↦ elim (method_of method) [
    | none ↦ (false, r)
    | some m ↦ process_target (record r { method = m }) rest
  ]
]

-- What one round of the loop leaves: whether it goes on, or `ok` where it stops.
pub data Round (S : Type 0) : Type 0 where
  more : Context → S → Round S
  stop : Bool → Context → S → Round S

abbrev pub Outcome : Type 0 → Type 0
Outcome S = Bool × Context × S

-- The loop reads its input by lines: `findCRLF`, the bytes before it, and `retrieveUntil` behind it.
abbrev pub LineSource : Type 0 → Type 0
LineSource S = S → Option (Bytes × S)

module _ {S : Type 0} where
  -- The branch for the request line, at what `findCRLF` gave.
  unfoldable pub read_request_line : Option (Bytes × S) → Context → S → Round S
  read_request_line none c s = stop true c s
  read_request_line (some (line, rest)) c s =
      let (ok, request) = process_request_line c.request line in
      if ok
      then more (record { state = expect_headers; request = request }) rest
      else stop false (record c { request = request }) s

  -- The branch for a header: a line without a colon ends the request.
  unfoldable pub read_header : Option (Bytes × S) → Context → S → Round S
  read_header none c s = stop true c s
  read_header (some (line, rest)) c s = elim (split_at b':' line) [
    | some (key, value) ↦ more (record c { request = add_header c.request key value }) rest
    | none ↦ more (record c { state = got_all }) rest
  ]

module _ {S : Type 0} (next_line : LineSource S) where
  unfoldable pub round_in : ParseState → Context → S → Round S
  round_in expect_request_line c s = read_request_line (next_line s) c s
  round_in expect_headers c s = read_header (next_line s) c s
  round_in expect_body c s = stop true c s
  round_in got_all c s = stop true c s

  -- The loop on fuel; `none` is fuel that ran out.
  unfoldable pub loop : ℕ → Context → S → Option (Outcome S)
  loop zero c s = none
  loop (suc n) c s = elim (round_in c.state c s) [
    | more c' s' ↦ loop n c' s'
    | stop ok c' s' ↦ some (ok, c', s')
  ]

-- A line of a buffer, and the buffer behind the line's end.
unfoldable pub buffer_line : LineSource Buffer
buffer_line b = elim (find_crlf b) [
  | none ↦ none
  | some crlf ↦ some (peek_range b (sub_size crlf (peek b)), retrieve_until b (crlf + 2))
]

-- `parseRequest`. Each round that goes on takes two bytes at least.
unfoldable pub parse_request : Context → Buffer → Option (Outcome Buffer)
parse_request c b = loop buffer_line (readable_bytes b + 1) c b
