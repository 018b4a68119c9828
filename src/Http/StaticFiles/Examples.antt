-- ===== src/Http/StaticFiles/Examples.antt =====
-- A small site.
use agora_im.Shared.{
  ◌∷◌, ℕ, ◌≡◌, ◌≢◌, ap, refl, sym, Bool, true, false, not, ◌&&◌, Option, none, some, ◌++◌, ◌==◌,
  if◌then◌else◌, arith, Bytes, codes, eq_bytes, eq_bytes_ne, Free,
}
use agora_im.Http.Request.{HttpRequest, empty_request}
use agora_im.Http.Response
use agora_im.Http.Response.{HttpResponse}
use agora_im.Http.StaticFiles.{url_decode, has_dots, hex_digit, is_space, on_request}
use agora_im.Http.StaticFiles.Decode.{
  encode, hex, IsPlain, AreBytes, StartsNothing, url_decode-encode,
}
use agora_im.Http.StaticFiles.Reach.{on_request_confined, on_request_throws}

-- It encodes a blank, too.
abbrev keeps : ℕ → Bool
keeps c = not (c == b'%') && not (c == b'+') && not (c == b' ')

keeps-IsPlain : IsPlain keeps
keeps-IsPlain = record { percent = refl; plus = refl }

abbrev name : Bytes
name = codes "/a b+%.css"

name-AreBytes : AreBytes name
name-AreBytes = ground arith

url_decode-encode_example : url_decode (encode keeps name) ≡ some name
url_decode-encode_example = url_decode-encode keeps name keeps-IsPlain name-AreBytes

-- The text that is decoded there.
encoded_name : encode keeps name ≡ codes "/a%20b%2B%25.css"
unfolding encode hex
encoded_name = refl

abbrev root : Bytes
root = codes "/srv"

abbrev files : Bytes → Option Bytes
files path = if eq_bytes path (codes "/srv/a b+%.css") then some (codes "p{}") else none

-- There is a file beside the root, too.
abbrev more_files : Bytes → Option Bytes
more_files path = if eq_bytes path (codes "/srv-old/key") then some (codes "secret") else files path

abbrev request : Bytes → HttpRequest
request path = record empty_request { path = path }

name_dots : has_dots name ≡ false
unfolding has_dots
name_dots = refl

name_file : files (codes "/srv/a b+%.css") ≡ some (codes "p{}")
unfolding eq_bytes
name_file = refl

css_Free : Free b'.' (codes "css")
css_Free = ground arith

abbrev fifth : Bytes → ℕ
fifth (a ∷ b ∷ c ∷ d ∷ e ∷ xs) = e
fifth _ = 0

not_the_key : (p : Bytes) → root ++ b'/' ∷ p ≢ codes "/srv-old/key"
not_the_key p e = absurd (omega (arith, ap fifth e))

-- The two agree on every path under the root.
agree :
    (p : Bytes)
    → has_dots (b'/' ∷ p) ≡ false
    → files (root ++ b'/' ∷ p) ≡ more_files (root ++ b'/' ∷ p)
agree p h = sym (
    ap (λ b. if b then some (codes "secret") else files (root ++ b'/' ∷ p))
      (eq_bytes_ne (root ++ b'/' ∷ p) (codes "/srv-old/key") (not_the_key p)))

on_request_confined_example :
    on_request root files (request (codes "/../srv-old/key")) (Response.new true)
    ≡ on_request root more_files (request (codes "/../srv-old/key")) (Response.new true)
on_request_confined_example =
    on_request_confined root files more_files (request (codes "/../srv-old/key"))
      (Response.new true) (codes "../srv-old/key") refl agree

letter_g : StartsNothing b'g'
unfolding hex_digit is_space
letter_g = record { digit = refl; space = refl; minus = refl; plus = refl }

on_request_throws_example :
    on_request root files (request (codes "/%gz.css")) (Response.new true) ≡ none
unfolding encode
on_request_throws_example =
    on_request_throws root files (request (codes "/%gz.css")) (Response.new true) keeps (codes "/")
      b'g' b'z' (codes ".css") keeps-IsPlain (ground arith) letter_g refl
