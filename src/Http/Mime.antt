-- ===== src/Http/Mime.antt =====
-- src/net/http/mime_type.cpp: the MIME type of a path.
use agora_im.Shared.{
  ◌≡◌, refl, ◌||◌, Option, none, some, [], ◌∷◌, ◌++◌, ◌==◌, if◌then◌else◌, arith, Bytes, codes,
  eq_bytes, Free,
}

-- `path.substr(path.rfind('.') + 1)`, and `none` where there is no dot.
unfoldable pub extension : Bytes → Option Bytes
extension [] = none
extension (c ∷ cs) = elim (extension cs) [
  | some e ↦ some e
  | none ↦ if c == b'.' then some cs else none
]

abbrev pub octet_stream : Bytes
octet_stream = codes "application/octet-stream"

-- The chain of comparisons.
unfoldable pub type_of_extension : Bytes → Bytes
type_of_extension e =
    if eq_bytes e (codes "html") || eq_bytes e (codes "htm")
    then codes "text/html"
    else if eq_bytes e (codes "css")
    then codes "text/css"
    else if eq_bytes e (codes "js")
    then codes "application/javascript"
    else if eq_bytes e (codes "json")
    then codes "application/json"
    else if eq_bytes e (codes "png")
    then codes "image/png"
    else if eq_bytes e (codes "jpg") || eq_bytes e (codes "jpeg")
    then codes "image/jpeg"
    else if eq_bytes e (codes "gif")
    then codes "image/gif"
    else if eq_bytes e (codes "ico")
    then codes "image/x-icon"
    else if eq_bytes e (codes "svg")
    then codes "image/svg+xml"
    else if eq_bytes e (codes "txt")
    then codes "text/plain"
    else if eq_bytes e (codes "pdf")
    then codes "application/pdf"
    else if eq_bytes e (codes "zip")
    then codes "application/zip"
    else if eq_bytes e (codes "mp4")
    then codes "video/mp4"
    else octet_stream

unfoldable pub get_type : Bytes → Bytes
get_type path = elim (extension path) [ none ↦ octet_stream | some e ↦ type_of_extension e ]

extension-Free : (e : Bytes) → Free b'.' e → extension e ≡ none
unfolding extension
extension-Free [] f = refl
extension-Free (c ∷ cs) f = ground (arith, extension-Free cs f.1)

pub extension-append : (dir e : Bytes) → Free b'.' e → extension (dir ++ b'.' ∷ e) ≡ some e
unfolding extension
extension-append [] e f = rw (extension-Free e f)
extension-append (c ∷ dir) e f = rw (extension-append dir e f)
