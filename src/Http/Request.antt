-- ===== src/Http/Request.antt =====
-- include/agora/net/http/http_request.h: a parsed request. `HeaderMap`, an unordered_map, is an
-- association list with one entry for each key.
use agora_im.Shared.{
  ◌≡◌, refl, List, [], ◌∷◌, Option, none, some, Bytes, eq_bytes, if◌then◌else◌, arith, eq_bytes_iff,
}

pub data Method : Type 0 where
  invalid get post head put delete : Method

pub data Version : Type 0 where
  unknown http10 http11 : Version

abbrev pub HeaderMap : Type 0
HeaderMap = List (Bytes × Bytes)

-- `headers_[key] = value`.
unfoldable pub assign : Bytes → Bytes → HeaderMap → HeaderMap
assign key value [] = (key, value) ∷ []
assign key value ((k, v) ∷ m) =
    if eq_bytes k key then (key, value) ∷ m else (k, v) ∷ assign key value m

-- `headers_.find(key)`.
unfoldable pub find : Bytes → HeaderMap → Option Bytes
find key [] = none
find key ((k, v) ∷ m) = if eq_bytes k key then some v else find key m

pub record HttpRequest : Type 0 where
  pub method : Method
  pub version : Version
  pub path : Bytes
  pub query : Bytes
  pub headers : HeaderMap

abbrev pub empty_request : HttpRequest
empty_request = record { method = invalid; version = unknown; path = []; query = []; headers = [] }

unfoldable pub add_header : HttpRequest → Bytes → Bytes → HttpRequest
add_header r key value = record r { headers = assign key value r.headers }

unfoldable pub get_header : HttpRequest → Bytes → Bytes
get_header r key = elim (find key r.headers) [ none ↦ [] | some v ↦ v ]

pub find-assign :
    (k j v : Bytes) (m : HeaderMap)
    → find j (assign k v m) ≡ (if eq_bytes k j then some v else find j m)
unfolding find assign
find-assign k j v [] = refl
find-assign k j v ((i, w) ∷ m) =
    ground (arith, eq_bytes_iff k j, eq_bytes_iff i k, eq_bytes_iff i j, find-assign k j v m)

-- The header that is added is the one that is read back, and no other changes: names are compared
-- byte by byte, and a name added again has its last value.
pub get_header-add_header :
    (r : HttpRequest) (key value other : Bytes)
    → get_header (add_header r key value) other
      ≡ (if eq_bytes key other then value else get_header r other)
unfolding get_header add_header
get_header-add_header r key value other = ground (arith, find-assign key other value r.headers)
