-- ===== src/Http/Response/Written.antt =====
-- The bytes of a response.
use agora_im.Shared.{
  ℕ, ◌+◌, ◌≤◌, ◌<◌, ◌≡◌, ◌∙◌, ap, sym, Bool, true, false, [], ◌∷◌, ◌++◌, length, length-append,
  append-nil, append_assoc, arith, max_bytes, Bytes, codes,
}
use agora_im.Buffer.{Buffer, append, contents}
use agora_im.Buffer.Valid.{IsValid}
use agora_im.Buffer.Contents.{contents-append}
use agora_im.Buffer.Stream.{writer_index-append}
use agora_im.Http.Request.{HeaderMap}
use agora_im.Http.Response.{
  HttpResponse, code_of, crlf, append_header, append_headers, append_connection, append_status,
  append_length, append_to_buffer,
}

-- The function puts these bytes at the end of a buffer in which they fit.
abbrev pub Appends : Bytes → (Buffer → Buffer) → Type 0
Appends bytes f =
    (b : Buffer)
    → IsValid b
    → b.writer_index + length bytes < max_bytes
    → IsValid (f b)
      × (contents (f b) ≡ contents b ++ bytes)
      × ((f b).writer_index ≤ b.writer_index + length bytes)

append-Appends : (bytes : Bytes) → Appends bytes (λ b. append b bytes)
append-Appends bytes b v h =
    let (v', e) = contents-append b bytes v h in (v', e, writer_index-append b bytes v)

Appends-then :
    (xs ys : Bytes) (f g : Buffer → Buffer)
    → Appends xs f
    → Appends ys g
    → Appends (xs ++ ys) (λ b. g (f b))
Appends-then xs ys f g p q b v h =
    let n = length-append xs ys in
    let (v₁, e₁, w₁) = p b v (omega (arith, n)) in
    let (v₂, e₂, w₂) = q (f b) v₁ (omega (arith, n, w₁)) in
    (v₂, e₂ ∙ ap (λ l. l ++ ys) e₁ ∙ append_assoc (contents b) xs ys, omega (arith, n, w₁, w₂))

-- The text of a header line, and of all of them.
unfoldable pub header_text : Bytes × Bytes → Bytes
header_text h = ((h.0 ++ codes ": ") ++ h.1) ++ crlf

unfoldable pub headers_text : HeaderMap → Bytes
headers_text [] = []
headers_text (h ∷ hs) = header_text h ++ headers_text hs

unfoldable pub connection_text : Bool → Bytes
connection_text true = codes "Connection: close" ++ crlf
connection_text false = codes "Connection: Keep-Alive" ++ crlf

then_bytes :
    (xs ys : Bytes) (f : Buffer → Buffer) → Appends xs f → Appends (xs ++ ys) (λ b. append (f b) ys)
then_bytes xs ys f p = Appends-then xs ys f (λ b. append b ys) p (append-Appends ys)

append_header-Appends : (h : Bytes × Bytes) → Appends (header_text h) (append_header h)
unfolding append_header header_text
append_header-Appends h =
    then_bytes _ crlf _ (then_bytes _ h.1 _ (then_bytes h.0 (codes ": ") _ (append-Appends h.0)))

append_headers-Appends : (hs : HeaderMap) → Appends (headers_text hs) (append_headers hs)
unfolding append_headers headers_text
append_headers-Appends [] = λ b v h. (v, sym (append-nil (contents b)), omega arith)
append_headers-Appends (h ∷ hs) =
    Appends-then (header_text h) (headers_text hs) (append_header h) (append_headers hs)
      (append_header-Appends h) (append_headers-Appends hs)

append_connection-Appends :
    (close : Bool) → Appends (connection_text close) (append_connection close)
unfolding append_connection connection_text
append_connection-Appends true = append-Appends (codes "Connection: close" ++ crlf)
append_connection-Appends false = append-Appends (codes "Connection: Keep-Alive" ++ crlf)

module _ (to_string : ℕ → Bytes) where
  unfoldable pub status_text : HttpResponse → Bytes
  status_text r =
      (((codes "HTTP/1.1 " ++ to_string (code_of r.status_code)) ++ codes " ") ++ r.status_message)
      ++ crlf

  unfoldable pub length_text : HttpResponse → Bytes
  length_text r = (codes "Content-Length: " ++ to_string (length r.body)) ++ crlf

  -- The text of a response: its status line, its headers, the length of its body, whether the
  -- connection closes, an empty line, and the body.
  unfoldable pub response_text : HttpResponse → Bytes
  response_text r =
      ((((status_text r ++ headers_text r.headers) ++ length_text r)
          ++ connection_text r.close_connection)
        ++ crlf)
      ++ r.body

  append_status-Appends : (r : HttpResponse) → Appends (status_text r) (append_status to_string r)
  unfolding append_status status_text
  append_status-Appends r = then_bytes _ crlf _ (
      then_bytes _ r.status_message _ (
        then_bytes _ (codes " ") _ (
          then_bytes (codes "HTTP/1.1 ") (to_string (code_of r.status_code)) _
            (append-Appends (codes "HTTP/1.1 ")))))

  append_length-Appends : (r : HttpResponse) → Appends (length_text r) (append_length to_string r)
  unfolding append_length length_text
  append_length-Appends r = then_bytes _ crlf _ (
      then_bytes (codes "Content-Length: ") (to_string (length r.body)) _
        (append-Appends (codes "Content-Length: ")))

  -- `appendToBuffer` puts just the text of the response at the end of a valid buffer, and keeps it
  -- valid: a status line, the headers, a `Content-Length` that is the length of the body, one
  -- `Connection` header, an empty line and the body. The text must fit in the buffer.
  pub append_to_buffer-response_text :
      (r : HttpResponse) (b : Buffer)
      → IsValid b
      → b.writer_index + length (response_text r) < max_bytes
      → IsValid (append_to_buffer to_string r b)
        × (contents (append_to_buffer to_string r b) ≡ contents b ++ response_text r)
  unfolding append_to_buffer response_text
  append_to_buffer-response_text r b v h =
      let (v', e, w) =
        then_bytes _ r.body _
          (then_bytes _ crlf _ (
            Appends-then _ (connection_text r.close_connection) _
              (append_connection r.close_connection)
              (Appends-then _ (length_text r) _ (append_length to_string r)
                (Appends-then (status_text r) (headers_text r.headers) (append_status to_string r)
                  (append_headers r.headers) (append_status-Appends r)
                  (append_headers-Appends r.headers))
                (append_length-Appends r))
              (append_connection-Appends r.close_connection)))
          b v h in
      (v', e)
