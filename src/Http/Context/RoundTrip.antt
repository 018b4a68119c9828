-- ===== src/Http/Context/RoundTrip.antt =====
-- A request written out is parsed back.
use agora_im.Shared.{
  ◌≡◌, ◌≢◌, refl, arith, true, List, [], ◌∷◌, ◌++◌, Option, none, some, Bytes, split_at,
  split_at-append, split_at-Free, Free, Free-append, codes, eq_bytes,
}
use agora_im.Buffer.{Buffer, contents, crlf_bytes}
use agora_im.Buffer.Valid.{IsValid}
use agora_im.Http.Request.{
  HttpRequest, Method, invalid, get, post, head, put, delete, Version, unknown, http10, http11,
  add_header, empty_request,
}
use agora_im.Http.Context.{
  expect_request_line, expect_headers, got_all, more, stop, round_in, read_request_line,
  read_header, new, process_request_line, process_target, set_target, set_version, method_of,
  parse_request,
}
use agora_im.Http.Context.Lines.{bytes_line, bytes_line_lem, Parses, stops, goes, Parses-unique}
use agora_im.Http.Context.Refine.{parse_request_lem}

abbrev pub method_name : Method → Bytes
method_name invalid = []
method_name get = codes "GET"
method_name post = codes "POST"
method_name head = codes "HEAD"
method_name put = codes "PUT"
method_name delete = codes "DELETE"

abbrev pub version_name : Version → Bytes
version_name unknown = []
version_name http10 = codes "HTTP/1.0"
version_name http11 = codes "HTTP/1.1"

abbrev pub target : Bytes → Option Bytes → Bytes
target path none = path
target path (some query) = path ++ b'?' ∷ query

abbrev query_of : Option Bytes → Bytes
query_of none = []
query_of (some query) = query

-- The header lines, the empty line, and what follows.
unfoldable pub header_lines : List (Bytes × Bytes) → Bytes → Bytes
header_lines [] rest = crlf_bytes ++ rest
header_lines ((k, v) ∷ hs) rest = (k ++ b':' ∷ v) ++ (crlf_bytes ++ header_lines hs rest)

pub record Message : Type 0 where
  pub method : Method
  pub version : Version
  pub path : Bytes
  pub query : Option Bytes
  pub headers : List (Bytes × Bytes)

unfoldable pub request_line : Message → Bytes
request_line m =
    method_name m.method ++ b' ' ∷ (target m.path m.query ++ b' ' ∷ version_name m.version)

unfoldable pub written : Message → Bytes → Bytes
written m rest = request_line m ++ (crlf_bytes ++ header_lines m.headers rest)

unfoldable pub add_all : HttpRequest → List (Bytes × Bytes) → HttpRequest
add_all r [] = r
add_all r ((k, v) ∷ hs) = add_all (add_header r k v) hs

-- The request that a message stands for: of headers with one name the last counts.
unfoldable pub meant : Message → HttpRequest
meant m =
    add_all
      (record {
        method = m.method;
        version = m.version;
        path = m.path;
        query = query_of m.query;
        headers = [];
      })
      m.headers

abbrev CleanQuery : Option Bytes → Type 0
CleanQuery none = Unit {0}
CleanQuery (some q) = Free b' ' q × Free b'\r' q

abbrev CleanHeaders : List (Bytes × Bytes) → Type 0
CleanHeaders [] = Unit {0}
CleanHeaders ((k, v) ∷ hs) = Free b':' k × Free b'\r' k × Free b'\r' v × CleanHeaders hs

-- What can be written: a known method and version, no blank or line end in the target, no `?` in
-- the path, no colon in a header's name and no carriage return in a header.
pub record IsClean (m : Message) : Type 0 where
  pub method_known : m.method ≢ invalid
  pub version_known : m.version ≢ unknown
  pub path_clean : Free b' ' m.path × Free b'\r' m.path × Free b'?' m.path
  pub query_clean : CleanQuery m.query
  pub headers_clean : CleanHeaders m.headers

method_of_name :
    (m : Method)
    → m ≢ invalid
    → (method_of (method_name m) ≡ some m) × Free b' ' (method_name m) × Free b'\r' (method_name m)
unfolding method_of eq_bytes
method_of_name invalid h = absurd (h refl)
method_of_name get h = (refl, omega arith, omega arith)
method_of_name post h = (refl, omega arith, omega arith)
method_of_name head h = (refl, omega arith, omega arith)
method_of_name put h = (refl, omega arith, omega arith)
method_of_name delete h = (refl, omega arith, omega arith)

set_version_name :
    (r : HttpRequest) (v : Version)
    → v ≢ unknown
    → (set_version r (version_name v) ≡ (true, record r { version = v }))
      × Free b'\r' (version_name v)
unfolding set_version eq_bytes
set_version_name r unknown h = absurd (h refl)
set_version_name r http10 h = (refl, omega arith)
set_version_name r http11 h = (refl, omega arith)

set_target_lem :
    (r : HttpRequest) (path : Bytes) (query : Option Bytes)
    → Free b'?' path
    → r.query ≡ []
    → set_target r (target path query) ≡ record r { path = path; query = query_of query }
unfolding set_target
set_target_lem r path none f e = rw (split_at-Free b'?' path f, set_target) (ground arith)
set_target_lem r path (some q) f e = rw (split_at-append b'?' path q f, set_target)

target_clean :
    (path : Bytes) (query : Option Bytes)
    → Free b' ' path × Free b'\r' path × Free b'?' path
    → CleanQuery query
    → Free b' ' (target path query) × Free b'\r' (target path query)
target_clean path none p q = (p.0, p.1)
target_clean path (some s) p q = (
  Free-append b' ' path (b'?' ∷ s) p.0 (omega arith, q.0),
  Free-append b'\r' path (b'?' ∷ s) p.1 (omega arith, q.1),
)

module _ (m : Message) (w : IsClean m) where
  request_line-Free : Free b'\r' (request_line m)
  unfolding request_line
  request_line-Free =
      let t = target_clean m.path m.query w.path_clean w.query_clean in
      Free-append b'\r' (method_name m.method) _ (method_of_name m.method w.method_known).2 (
        omega arith,
        Free-append b'\r' (target m.path m.query) _ t.1
            (omega arith, (set_version_name empty_request m.version w.version_known).1),
      )

  process_request_line_lem : process_request_line empty_request (request_line m) ≡ (
    true,
    record {
      method = m.method;
      version = m.version;
      path = m.path;
      query = query_of m.query;
      headers = [];
    },
  )
  unfolding request_line process_request_line process_target
  process_request_line_lem =
      let n = method_of_name m.method w.method_known in
      let t = target_clean m.path m.query w.path_clean w.query_clean in
      let r : HttpRequest = record empty_request { method = m.method } in
      rw
        (
          split_at-append b' ' (method_name m.method)
              (target m.path m.query ++ b' ' ∷ version_name m.version) n.1,
          n.0,
          process_request_line,
        )
        (rw
          (
            split_at-append b' ' (target m.path m.query) (version_name m.version) t.0,
            process_target,
          )
          (rw (set_target_lem r m.path m.query w.path_clean.2 refl)
            (set_version_name _ m.version w.version_known).0))

blank_round :
    (r : HttpRequest) (rest : Bytes)
    → round_in bytes_line expect_headers
        (record { state = expect_headers; request = r })
        (crlf_bytes ++ rest)
      ≡ more (record { state = got_all; request = r }) rest
unfolding round_in read_header split_at
blank_round r rest = rw (bytes_line_lem [] rest tt)

header_round :
    (r : HttpRequest) (k v rest : Bytes)
    → Free b':' k
    → Free b'\r' k
    → Free b'\r' v
    → round_in bytes_line expect_headers
        (record { state = expect_headers; request = r })
        ((k ++ b':' ∷ v) ++ (crlf_bytes ++ rest))
      ≡ more (record { state = expect_headers; request = add_header r k v }) rest
unfolding round_in read_header
header_round r k v rest f g h = rw (
  bytes_line_lem (k ++ b':' ∷ v) rest (Free-append b'\r' k (b':' ∷ v) g (omega arith, h)),
  split_at-append b':' k v f,
  read_header,
)

stopped :
    (r : HttpRequest) (rest : Bytes)
    → round_in bytes_line got_all (record { state = got_all; request = r }) rest
      ≡ stop true (record { state = got_all; request = r }) rest
unfolding round_in
stopped r rest = refl

header_lines-Parses :
    (r : HttpRequest) (hs : List (Bytes × Bytes)) (rest : Bytes)
    → CleanHeaders hs
    → Parses
        (record { state = expect_headers; request = r })
        (header_lines hs rest)
        (true, record { state = got_all; request = add_all r hs }, rest)
unfolding header_lines add_all
header_lines-Parses r [] rest h = goes (blank_round r rest) (stops (stopped r rest))
header_lines-Parses r ((k, v) ∷ hs) rest h =
    goes (header_round r k v (header_lines hs rest) h.0 h.1 h.2)
      (header_lines-Parses (add_header r k v) hs rest h.3)

request_round :
    (m : Message)
    → IsClean m
    → (rest : Bytes)
    → round_in bytes_line expect_request_line new (written m rest)
      ≡ more
          (record {
            state = expect_headers;
            request = record {
              method = m.method;
              version = m.version;
              path = m.path;
              query = query_of m.query;
              headers = [];
            };
          })
          (header_lines m.headers rest)
unfolding round_in read_request_line written
request_round m w rest = rw (
  bytes_line_lem (request_line m) (header_lines m.headers rest) (request_line-Free m w),
  process_request_line_lem m w,
  read_request_line,
)

-- The rounds on a clean request, written out, lead to the request that was meant.
pub written-Parses :
    (m : Message) (rest : Bytes)
    → IsClean m
    → Parses new (written m rest) (true, record { state = got_all; request = meant m }, rest)
unfolding meant
written-Parses m rest w =
    goes (request_round m w rest) (header_lines-Parses _ m.headers rest w.headers_clean)

-- A fresh context on a valid buffer that starts with a clean request, written out, returns true in
-- state got_all with the request that was meant, and leaves just the bytes behind it.
pub parse_request-written :
    (m : Message) (b : Buffer) (rest : Bytes)
    → IsClean m
    → IsValid b
    → contents b ≡ written m rest
    → (b' : Buffer) × (parse_request new b
        ≡ some (true, record { state = got_all; request = meant m }, b'))
      × IsValid b'
      × (contents b' ≡ rest)
parse_request-written m b rest w v e =
    let (o, b', q, h, p) = parse_request_lem new b v in
    let same = Parses-unique (rw e at p) (written-Parses m rest w) in
    (b', rw same at q, h.valid, rw same at h.same)
