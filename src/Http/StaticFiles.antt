-- ===== src/Http/StaticFiles.antt =====
-- src/net/http/static_file_server.cpp: the decoding of a path, and the answer to a request.
--
-- A `char` is a byte, and an exception is `none`. `std::stoi` with base 16 is written out, as
-- `strtol` works: blanks, a sign, an optional `0x`, and digits up to the first byte that is none.
-- Files are an argument, which gives the content of the file at a path, if it can be opened; what a
-- stream does on a directory, which opens but has no length, is outside the model.
pub mod Decode
pub mod Reach
mod Examples
use agora_im.Shared.{
  ℕ, zero, suc, ◌+◌, ◌-◌, ◌*◌, ◌/◌, ◌%◌, ◌≤◌, ◌<◌, ◌≡◌, ◌≢◌, ◌∙◌, ◌⊎◌, ◌↔◌, ap, refl, sym, Bool,
  true, false, not, ◌&&◌, ◌||◌, Option, none, some, List, [], ◌∷◌, ◌++◌, append-nil, append_assoc,
  ltb, leb, ◌==◌, if◌then◌else◌, Bool-cases, Option-cases, inl, inr, arith, Bytes, codes, length,
  take, drop, length-append, eq_bytes, eq_bytes_iff, Free, ==_iff,
}
use agora_im.Shared.Assertions.{◌>>=◌}
use agora_im.Http.Request.{HttpRequest}
use agora_im.Http.Response.{HttpResponse, StatusCode, ok, bad_request, not_found, add_header}
use agora_im.Http.Mime.{get_type}

unfoldable pub is_space : ℕ → Bool
is_space c = c == 32 || (leb 9 c && leb c 13)

-- The value of a digit.
unfoldable pub hex_digit : ℕ → Option ℕ
hex_digit c =
    if leb b'0' c && leb c b'9'
    then some (c - 48)
    else if leb b'a' c && leb c b'f'
    then some (c - 87)
    else if leb b'A' c && leb c b'F'
    then some (c - 55)
    else none

-- The digits from here on; the first must be one.
unfoldable pub more_digits : ℕ → Bytes → ℕ
more_digits n [] = n
more_digits n (c ∷ cs) = elim (hex_digit c) [ none ↦ n | some d ↦ more_digits (n * 16 + d) cs ]

unfoldable pub digits : Bytes → Option ℕ
digits [] = none
digits (c ∷ cs) = elim (hex_digit c) [ none ↦ none | some d ↦ some (more_digits d cs) ]

unfoldable pub starts_digit : Bytes → Bool
starts_digit [] = false
starts_digit (c ∷ cs) = elim (hex_digit c) [ none ↦ false | some d ↦ true ]

-- `0x` counts as a prefix only before a digit.
unfoldable pub after_prefix : Bytes → Bytes
after_prefix (b ∷ c ∷ cs) =
    if b == b'0' && (c == b'x' || c == b'X') && starts_digit cs then cs else b ∷ c ∷ cs
after_prefix (b ∷ []) = b ∷ []
after_prefix [] = []

-- Whether the number is negative, and its size.
unfoldable pub signed : Bytes → Option (Bool × ℕ)
signed [] = none
signed (c ∷ cs) =
    if c == b'-'
    then (do n ← digits (after_prefix cs); some (true, n))
    else if c == b'+'
    then (do n ← digits (after_prefix cs); some (false, n))
    else (do n ← digits (after_prefix (c ∷ cs)); some (false, n))

unfoldable pub skip_spaces : Bytes → Bytes
skip_spaces [] = []
skip_spaces (c ∷ cs) = let rest = skip_spaces cs in if is_space c then rest else c ∷ cs

unfoldable pub stoi : Bytes → Option (Bool × ℕ)
stoi s = signed (skip_spaces s)

-- `static_cast<char>`.
unfoldable pub to_char : Bool × ℕ → ℕ
to_char (true, n) = (256 - n % 256) % 256
to_char (false, n) = n % 256

abbrev pub plain : ℕ → ℕ
plain c = if c == b'+' then b' ' else c

-- `urlDecode`. A `%` is read with the two bytes behind it, if there are two.
unfoldable pub url_decode : Bytes → Option Bytes
url_decode [] = some []
url_decode (c ∷ []) = some (plain c ∷ [])
url_decode (c ∷ d ∷ []) = do rest ← url_decode (d ∷ []); some (plain c ∷ rest)
url_decode (c ∷ d ∷ e ∷ cs) = elim (c == b'%') [
  | true ↦ do n ← stoi (d ∷ e ∷ []); rest ← url_decode cs; some (to_char n ∷ rest)
  | false ↦ do rest ← url_decode (d ∷ e ∷ cs); some (plain c ∷ rest)
]

-- `path.find("..") != npos`.
unfoldable pub has_dots : Bytes → Bool
has_dots [] = false
has_dots (c ∷ []) = false
has_dots (c ∷ d ∷ cs) = (c == b'.' && d == b'.') || has_dots (d ∷ cs)

-- `serveFile` when the file at this path has this content.
unfoldable pub found : (path content : Bytes) → HttpResponse → HttpResponse
found path content r =
    record (add_header (codes "Content-Type") (get_type path)
      (record r { status_code = ok; status_message = codes "OK" })) { body = content }

unfoldable pub refused : HttpResponse → HttpResponse
refused r = record r {
  status_code = bad_request;
  status_message = codes "Bad Request";
  body = codes "400 Bad Request";
}

unfoldable pub missing : HttpResponse → HttpResponse
missing r =
    record (add_header (codes "Content-Type") (codes "text/html")
      (record r { status_code = not_found; status_message = codes "Not Found" })) {
        body = codes "<h1>404 Not Found</h1>";
      }

-- A request for the root is one for the index page.
unfoldable pub wanted : Bytes → Bytes
wanted path = if eq_bytes path (codes "/") then codes "/index.html" else path

module _ (root : Bytes) (files : Bytes → Option Bytes) where
  unfoldable pub serve_file : Bytes → HttpResponse → Bool × HttpResponse
  serve_file path r = elim (files path) [
    | none ↦ (false, r)
    | some content ↦ (true, found path content r)
  ]

  -- `onRequest` once the path is decoded.
  unfoldable pub respond : Bytes → HttpResponse → HttpResponse
  respond path r =
      if has_dots path
      then refused r
      else (let (served, r') = serve_file (root ++ wanted path) r in
          if served then r' else missing r')

  unfoldable pub on_request : HttpRequest → HttpResponse → Option HttpResponse
  on_request request r = do path ← url_decode request.path; some (respond path r)
