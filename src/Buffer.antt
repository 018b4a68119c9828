-- ===== src/Buffer.antt =====
-- include/agora/net/buffer.h and src/net/buffer.cpp: the growable byte buffer of a connection.
-- A pointer into `buffer_` is an index from `begin()`. The vector's elements are bytes held as
-- numbers. A copy past the end of the vector, undefined in C++, would write nothing here;
-- `Buffer.Valid` shows that none happens. What `readv` and `write` do is an argument.
pub mod Valid
pub mod Contents
pub mod ReadFd
pub mod Search
pub mod Stream
mod Examples
use agora_im.Shared.{
  ℕ, suc, ◌+◌, ◌≡◌, Bool, ◌&&◌, Option, none, some, List, [], ◌∷◌, length, range, overwrite, resize,
  replicate, take, drop, add_size, sub_size, ltb, leb, ◌==◌, if◌then◌else◌,
}
use mathlib.Core.Option

abbrev pub cheap_prepend : ℕ
cheap_prepend = 8

abbrev pub initial_size : ℕ
initial_size = 1024

-- `kCRLF`, its terminator left out.
abbrev pub crlf_bytes : List ℕ
crlf_bytes = b'\r' ∷ b'\n' ∷ []

pub record Buffer : Type 0 where
  pub buffer : List ℕ
  pub reader_index : ℕ
  pub writer_index : ℕ

unfoldable pub new : Buffer
new = record {
  buffer = replicate (cheap_prepend + initial_size) 0;
  reader_index = cheap_prepend;
  writer_index = cheap_prepend;
}

unfoldable pub readable_bytes : Buffer → ℕ
readable_bytes b = sub_size b.writer_index b.reader_index

pub writable_bytes : Buffer → ℕ
writable_bytes b = sub_size (length b.buffer) b.writer_index

pub prependable_bytes : Buffer → ℕ
prependable_bytes b = b.reader_index

unfoldable pub peek : Buffer → ℕ
peek b = b.reader_index

-- The bytes of `[peek(), peek() + n)`.
unfoldable pub peek_range : Buffer → ℕ → List ℕ
unfolding peek
peek_range b n = range b.buffer (peek b) n

-- The bytes that wait to be read, `[peek(), peek() + readableBytes())`.
unfoldable pub contents : Buffer → List ℕ
unfolding peek_range readable_bytes
contents b = peek_range b (readable_bytes b)

unfoldable pub retrieve_all : Buffer → Buffer
retrieve_all b = record b { reader_index = cheap_prepend; writer_index = cheap_prepend }

unfoldable pub retrieve : Buffer → ℕ → Buffer
unfolding retrieve_all readable_bytes
retrieve b len =
    if ltb len (readable_bytes b)
    then record b { reader_index = add_size b.reader_index len }
    else retrieve_all b

-- `none` is the failed assertion.
unfoldable pub retrieve_as_string : Buffer → ℕ → Option (List ℕ × Buffer)
unfolding readable_bytes peek_range retrieve
retrieve_as_string b len =
    if leb len (readable_bytes b) then some (peek_range b len, retrieve b len) else none

unfoldable pub retrieve_all_as_string : Buffer → Option (List ℕ × Buffer)
retrieve_all_as_string b = retrieve_as_string b (readable_bytes b)

pub make_space : Buffer → ℕ → Buffer
unfolding readable_bytes writable_bytes prependable_bytes peek_range
make_space b len =
    if ltb (add_size (prependable_bytes b) (writable_bytes b)) (add_size len cheap_prepend)
    then record b { buffer = resize b.buffer (add_size b.writer_index len) 0 }
    else (let readable = readable_bytes b in
        record {
          buffer = overwrite b.buffer cheap_prepend (peek_range b readable);
          reader_index = cheap_prepend;
          writer_index = add_size cheap_prepend readable;
        })

pub ensure_writable_bytes : Buffer → ℕ → Buffer
unfolding writable_bytes make_space
ensure_writable_bytes b len = if ltb (writable_bytes b) len then make_space b len else b

-- The `memcpy` of `append` and the index behind it.
unfoldable pub put : Buffer → List ℕ → Buffer
put b bytes = record b {
  buffer = overwrite b.buffer b.writer_index bytes;
  writer_index = add_size b.writer_index (length bytes);
}

unfoldable pub append : Buffer → List ℕ → Buffer
unfolding ensure_writable_bytes put
append b bytes = put (ensure_writable_bytes b (length bytes)) bytes

-- What a system call gives: `errno`, or what it moved.
pub data Answer {ℓ} (A : Type ℓ) : Type ℓ where
  failed : ℕ → Answer A
  moved : A → Answer A

abbrev pub extra_size : ℕ
extra_size = 65536

-- The room of the `iovcnt` areas given to `readv`.
unfoldable pub read_room : Buffer → ℕ
unfolding writable_bytes
read_room b =
    let writable = writable_bytes b in
    if ltb writable extra_size then writable + extra_size else writable

-- `readv` fills the buffer's writable area first, then `extrabuf`, with the bytes that it read.
unfoldable pub took : Buffer → List ℕ → Buffer
took b bytes =
    let writable = writable_bytes b in
    if leb (length bytes) writable
    then put b bytes
    else append
        (record b {
          buffer = overwrite b.buffer b.writer_index (take writable bytes);
          writer_index = length b.buffer;
        })
        (drop writable bytes)

-- `readFd`: the answer (its failure in `*savedErrno`) and the buffer. `readv` sees the room it has.
unfoldable pub read_fd : (readv : ℕ → Answer (List ℕ)) → Buffer → Answer ℕ × Buffer
unfolding read_room took
read_fd readv b = elim (readv (read_room b)) [
  | failed errno ↦ (failed errno, b)
  | moved bytes ↦ (moved (length bytes), took b bytes)
]

-- `writeFd`: the kernel sees the readable bytes. The buffer stays as it is.
unfoldable pub write_fd : (write : List ℕ → Answer ℕ) → Buffer → Answer ℕ
write_fd write b = write (contents b)

-- std::search for `kCRLF`: the index of its first occurrence.
unfoldable pub search_crlf : List ℕ → Option ℕ
search_crlf [] = none
search_crlf (c ∷ []) = none
search_crlf (c ∷ d ∷ xs) =
    let rest = Option.map (λ (i : ℕ). suc i) (search_crlf (d ∷ xs)) in
    if c == b'\r' && d == b'\n' then some 0 else rest

-- `nullptr` is `none`.
unfoldable pub find_crlf : Buffer → Option ℕ
unfolding peek contents search_crlf
find_crlf b = Option.map (λ i. peek b + i) (search_crlf (contents b))

unfoldable pub retrieve_until : Buffer → ℕ → Buffer
unfolding peek
retrieve_until b end = retrieve b (sub_size end (peek b))
