-- ===== src/Http/Response.antt =====
-- include/agora/net/http/http_response.h and src/net/http/http_response.cpp: a response and its
-- text. `std::to_string` is an argument. The headers stand in the order in which the map gives them.
pub mod Written
use agora_im.Shared.{
  ◌++◌, ℕ, ◌≡◌, Bool, true, false, List, [], ◌∷◌, length, if◌then◌else◌, Bytes, codes,
}
use agora_im.Buffer.{Buffer, append}
use agora_im.Http.Request.{HeaderMap, assign}

pub data StatusCode : Type 0 where
  unknown ok moved_permanently bad_request not_found internal_server_error : StatusCode

-- The enumerators' values.
abbrev pub code_of : StatusCode → ℕ
code_of unknown = 0
code_of ok = 200
code_of moved_permanently = 301
code_of bad_request = 400
code_of not_found = 404
code_of internal_server_error = 500

pub record HttpResponse : Type 0 where
  pub status_code : StatusCode
  pub status_message : Bytes
  pub close_connection : Bool
  pub headers : HeaderMap
  pub body : Bytes

unfoldable pub new : Bool → HttpResponse
new close = record {
  status_code = unknown;
  status_message = [];
  close_connection = close;
  headers = [];
  body = [];
}

unfoldable pub add_header : Bytes → Bytes → HttpResponse → HttpResponse
add_header key value r = record r { headers = assign key value r.headers }

abbrev pub crlf : Bytes
crlf = b'\r' ∷ b'\n' ∷ []

unfoldable pub append_header : Bytes × Bytes → Buffer → Buffer
append_header h b = append (append (append (append b h.0) (codes ": ")) h.1) crlf

unfoldable pub append_headers : HeaderMap → Buffer → Buffer
append_headers [] b = b
append_headers (h ∷ hs) b = append_headers hs (append_header h b)

unfoldable pub append_connection : Bool → Buffer → Buffer
append_connection close b =
    if close
    then append b (codes "Connection: close" ++ crlf)
    else append b (codes "Connection: Keep-Alive" ++ crlf)

module _ (to_string : ℕ → Bytes) where
  unfoldable pub append_status : HttpResponse → Buffer → Buffer
  append_status r b =
      let b₁ = append b (codes "HTTP/1.1 ") in
      let b₂ = append b₁ (to_string (code_of r.status_code)) in
      let b₃ = append b₂ (codes " ") in append (append b₃ r.status_message) crlf

  unfoldable pub append_length : HttpResponse → Buffer → Buffer
  append_length r b =
      append (append (append b (codes "Content-Length: ")) (to_string (length r.body))) crlf

  unfoldable pub append_to_buffer : HttpResponse → Buffer → Buffer
  append_to_buffer r b =
      let b₁ = append_status r b in
      let b₂ = append_headers r.headers b₁ in
      let b₃ = append_length r b₂ in
      let b₄ = append_connection r.close_connection b₃ in append (append b₄ crlf) r.body
