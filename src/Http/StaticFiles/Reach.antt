-- ===== src/Http/StaticFiles/Reach.antt =====
-- Which files a request reaches, and what it gets.
use agora_im.Shared.{
  ℕ, ◌≡◌, ◌∙◌, ap, refl, sym, Bool, true, false, ◌&&◌, Option, none, some, [], ◌∷◌, ◌++◌,
  append_assoc, ◌==◌, Bool-cases, Option-cases, inl, inr, Bytes, codes, eq_bytes, Free,
}
use agora_im.Http.Request.{HttpRequest, find, find-assign}
use agora_im.Http.Response.{HttpResponse, ok, add_header}
use agora_im.Http.Mime.{get_type, type_of_extension, extension-append}
use agora_im.Http.StaticFiles.{url_decode, has_dots, wanted, found, serve_file, respond, on_request}
use agora_im.Http.StaticFiles.Decode.{
  encode, IsPlain, AreBytes, url_decode-encode, StartsNothing, url_decode_throws,
}

wanted-has_dots : (path : Bytes) → has_dots path ≡ false → has_dots (wanted path) ≡ false
unfolding wanted has_dots
wanted-has_dots path h = elim (Bool-cases (eq_bytes path (codes "/"))) [
  | inl e ↦ rw e refl
  | inr e ↦ rw e h
]

-- The decoded text begins with a slash when the encoded one does, and so does the file's path.
decoded_slash :
    (rest path : Bytes) → url_decode (b'/' ∷ rest) ≡ some path → (p : Bytes) × (path ≡ b'/' ∷ p)
unfolding url_decode
decoded_slash [] path e = ([], cc)
decoded_slash (d ∷ []) path e = elim (Option-cases (url_decode (d ∷ []))) [
  | inl n ↦ absurd (cc n)
  | inr (tail, n) ↦ (tail, cc (n, e))
]
decoded_slash (d ∷ f ∷ cs) path e = elim (Option-cases (url_decode (d ∷ f ∷ cs))) [
  | inl n ↦ absurd (cc (n, e))
  | inr (tail, n) ↦ (tail, cc (n, e))
]

wanted_slash :
    (path : Bytes) → (p : Bytes) × (path ≡ b'/' ∷ p) → (p : Bytes) × (wanted path ≡ b'/' ∷ p)
unfolding wanted
wanted_slash path (p, e) = elim (Bool-cases (eq_bytes path (codes "/"))) [
  | inl y ↦ (codes "index.html", rw y refl)
  | inr n ↦ (p, rw n e)
]

module _ (root : Bytes) (files other : Bytes → Option Bytes) where
  serve_file_same :
      (path : Bytes) (r : HttpResponse)
      → files (root ++ path) ≡ other (root ++ path)
      → serve_file root files (root ++ path) r ≡ serve_file root other (root ++ path) r
  unfolding serve_file
  serve_file_same path r same = rw (serve_file, same) refl

  respond_same :
      (path : Bytes) (r : HttpResponse)
      → (has_dots path ≡ false → files (root ++ wanted path) ≡ other (root ++ wanted path))
      → respond root files path r ≡ respond root other path r
  unfolding respond
  respond_same path r same = elim (Bool-cases (has_dots path)) [
    | inl h ↦ rw h refl
    | inr h ↦ rw (h, serve_file_same (wanted path) r (same h)) refl
  ]

  -- Whatever the path of a request, its answer is the same from two file systems that agree on the
  -- paths that are the text of the root directory with a text without `..` behind it.
  on_request_prefixed :
      (request : HttpRequest) (r : HttpResponse)
      → ((p : Bytes) → has_dots p ≡ false → files (root ++ p) ≡ other (root ++ p))
      → on_request root files request r ≡ on_request root other request r
  unfolding on_request
  on_request_prefixed request r same = elim (Option-cases (url_decode request.path)) [
    | inl e ↦ rw e refl
    | inr (path, e) ↦
        rw (e, respond_same path r (λ h. same (wanted path) (wanted-has_dots path h))) refl
  ]

  -- A request whose path begins with a slash gets the same answer from two file systems that agree on
  -- the paths that are the root directory, a slash, and a text such that slash and text have no `..`.
  -- So no file elsewhere has an effect on the answer: none above the root directory, and none beside
  -- it whose name goes on where that of the root ends.
  pub on_request_confined :
      (request : HttpRequest) (r : HttpResponse) (rest : Bytes)
      → request.path ≡ b'/' ∷ rest
      → ((p : Bytes)
          → has_dots (b'/' ∷ p) ≡ false
          → files (root ++ b'/' ∷ p) ≡ other (root ++ b'/' ∷ p))
      → on_request root files request r ≡ on_request root other request r
  unfolding on_request
  on_request_confined request r rest slash same = elim (Option-cases (url_decode request.path)) [
    | inl e ↦ rw e refl
    | inr (path, e) ↦
        let (p, q) = wanted_slash path (decoded_slash rest path (sym (ap url_decode slash) ∙ e)) in
        rw
          (
            e,
            respond_same path r (λ h. rw q (same p (sym (ap has_dots q) ∙ wanted-has_dots path h))),
          )
          refl
  ]

-- The answer with this content, as this type.
pub record Delivers (content kind : Bytes) (r : HttpResponse) : Type 0 where
  pub status : r.status_code ≡ ok
  pub body : r.body ≡ content
  pub content_type : find (codes "Content-Type") r.headers ≡ some kind

found-Delivers :
    (path content kind : Bytes) (r : HttpResponse)
    → get_type path ≡ kind
    → Delivers content kind (found path content r)
unfolding found add_header eq_bytes
found-Delivers path content kind r e = record {
  status = refl;
  body = refl;
  content_type =
      find-assign (codes "Content-Type") (codes "Content-Type") (get_type path) r.headers
      ∙ ap (λ t. some t) e;
}

get_type-append : (dir e : Bytes) → Free b'.' e → get_type (dir ++ b'.' ∷ e) ≡ type_of_extension e
unfolding get_type
get_type-append dir e f = rw (get_type, extension-append dir e f) refl

and_false : (b : Bool) → (b && false) ≡ false
and_false true = refl
and_false false = refl

wanted_dotted : (dir e : Bytes) → wanted (dir ++ b'.' ∷ e) ≡ dir ++ b'.' ∷ e
unfolding wanted eq_bytes
wanted_dotted [] e = refl
wanted_dotted (c ∷ []) e = rw (and_false (c == 47)) refl
wanted_dotted (c ∷ d ∷ dir) e = rw (and_false (c == 47)) refl

module _ (root : Bytes) (files : Bytes → Option Bytes) where
  serve_file-found :
      (path content : Bytes) (r : HttpResponse)
      → files path ≡ some content
      → serve_file root files path r ≡ (true, found path content r)
  unfolding serve_file
  serve_file-found path content r e = rw (serve_file, e) refl

  respond-found :
      (path content : Bytes) (r : HttpResponse)
      → has_dots path ≡ false
      → files (root ++ wanted path) ≡ some content
      → respond root files path r ≡ found (root ++ wanted path) content r
  unfolding respond serve_file
  respond-found path content r h e = rw (h, serve_file-found (root ++ wanted path) content r e) refl

  pub on_request-found :
      (request : HttpRequest) (r : HttpResponse) (keep : ℕ → Bool) (path content : Bytes)
      → IsPlain keep
      → AreBytes path
      → has_dots path ≡ false
      → request.path ≡ encode keep path
      → files (root ++ wanted path) ≡ some content
      → on_request root files request r ≡ some (found (root ++ wanted path) content r)
  unfolding on_request
  on_request-found request r keep path content p b h q o =
      rw (q, url_decode-encode keep path p b) (ap (λ t. some t) (respond-found path content r h o))

  -- A request whose path is the percent-encoded form of `dir.extension`, where that text has no
  -- `..` and no dot follows that before the extension, is answered, when the file of that name under the
  -- root directory opens, with its content and the MIME type of the extension, and status 200.
  pub on_request-Delivers :
      (request : HttpRequest) (r : HttpResponse) (keep : ℕ → Bool) (dir e content : Bytes)
      → IsPlain keep
      → AreBytes (dir ++ b'.' ∷ e)
      → Free b'.' e
      → has_dots (dir ++ b'.' ∷ e) ≡ false
      → request.path ≡ encode keep (dir ++ b'.' ∷ e)
      → files (root ++ (dir ++ b'.' ∷ e)) ≡ some content
      → (r' : HttpResponse) × (on_request root files request r ≡ some r')
        × Delivers content (type_of_extension e) r'
  on_request-Delivers request r keep dir e content p b f h q o =
      let path = dir ++ b'.' ∷ e in
      let answer = found (root ++ wanted path) content r in
      (
        answer,
        on_request-found request r keep path content p b h q
            (ap (λ t. files (root ++ t)) (wanted_dotted dir e) ∙ o),
        found-Delivers (root ++ wanted path) content (type_of_extension e) r (
            ap (λ t. get_type (root ++ t)) (wanted_dotted dir e)
            ∙ ap get_type (sym (append_assoc root dir (b'.' ∷ e)))
            ∙ get_type-append (root ++ dir) e f),
      )

  -- A request with a path in which an escape begins with a byte that begins no number, after any text
  -- in percent-encoding, throws out of `onRequest`: it gets no response, not even one of status 400.
  pub on_request_throws :
      (request : HttpRequest) (r : HttpResponse) (keep : ℕ → Bool) (s : Bytes) (c d : ℕ)
      (rest : Bytes)
      → IsPlain keep
      → AreBytes s
      → StartsNothing c
      → request.path ≡ encode keep s ++ b'%' ∷ c ∷ d ∷ rest
      → on_request root files request r ≡ none
  unfolding on_request
  on_request_throws request r keep s c d rest p b n q =
      rw (q, url_decode_throws keep s c d rest p b n) refl
