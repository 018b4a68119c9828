-- ===== src/Buffer/Valid.antt =====
-- The representation invariant of a buffer: the indices are in order and inside the vector, and no
-- `size_t` sum or difference wraps.
use agora_im.Shared.{
  ℕ, ◌+◌, ◌-◌, ◌≤◌, ◌<◌, ◌≡◌, arith, List, length, length-overwrite, length-resize,
  length-replicate, length-range, max_bytes, add_size, ltb, Bool-cases, inl, inr, ltb→lt, ltb→le,
}
use agora_im.Buffer.{
  Buffer, new, readable_bytes, writable_bytes, cheap_prepend, initial_size, retrieve, make_space,
  ensure_writable_bytes, put, append, peek_range,
}

pub record IsValid (b : Buffer) : Type 0 where
  pub prepend : cheap_prepend ≤ b.reader_index
  pub ordered : b.reader_index ≤ b.writer_index
  pub inside : b.writer_index ≤ length b.buffer
  pub small : length b.buffer < max_bytes

pub new-IsValid : IsValid new
unfolding new
new-IsValid = omega (arith, length-replicate {A = ℕ} (cheap_prepend + initial_size) 0)

pub readable_bytes_lem :
    (b : Buffer) → IsValid b → readable_bytes b ≡ b.writer_index - b.reader_index
unfolding readable_bytes
readable_bytes_lem b v = omega arith

pub writable_bytes_lem :
    (b : Buffer) → IsValid b → writable_bytes b ≡ length b.buffer - b.writer_index
unfolding writable_bytes
writable_bytes_lem b v = omega arith

pub length-peek_range :
    (b : Buffer) (n : ℕ) → b.reader_index + n ≤ length b.buffer → length (peek_range b n) ≡ n
unfolding peek_range
length-peek_range b n h = length-range b.buffer b.reader_index n h

pub retrieve-IsValid : (b : Buffer) (len : ℕ) → IsValid b → IsValid (retrieve b len)
unfolding retrieve
retrieve-IsValid b len v = ground arith

pub make_space-IsValid :
    (b : Buffer) (len : ℕ)
    → IsValid b
    → b.writer_index + len < max_bytes
    → writable_bytes b < len
    → IsValid (make_space b len) × (len ≤ writable_bytes (make_space b len))
unfolding make_space
make_space-IsValid b len v fits short = ground (
  arith,
  length-resize b.buffer (add_size b.writer_index len) 0,
  length-overwrite b.buffer cheap_prepend (peek_range b (readable_bytes b)),
)

pub ensure_writable_bytes-IsValid :
    (b : Buffer) (len : ℕ)
    → IsValid b
    → b.writer_index + len < max_bytes
    → IsValid (ensure_writable_bytes b len) × (len ≤ writable_bytes (ensure_writable_bytes b len))
unfolding ensure_writable_bytes
ensure_writable_bytes-IsValid b len v fits = elim (Bool-cases (ltb (writable_bytes b) len)) [
  | inl short ↦ rw short (make_space-IsValid b len v fits (ltb→lt _ _ short))
  | inr room ↦ rw room (v, ltb→le _ _ room)
]

pub put-IsValid :
    (b : Buffer) (bytes : List ℕ)
    → IsValid b
    → length bytes ≤ writable_bytes b
    → IsValid (put b bytes)
unfolding put
put-IsValid b bytes v room =
    omega (arith, writable_bytes_lem b v, length-overwrite b.buffer b.writer_index bytes)

-- Whichever way `append` makes room, the buffer it leaves is valid.
pub append-IsValid :
    (b : Buffer) (bytes : List ℕ)
    → IsValid b
    → b.writer_index + length bytes < max_bytes
    → IsValid (append b bytes)
unfolding append
append-IsValid b bytes v fits =
    let e = ensure_writable_bytes-IsValid b (length bytes) v fits in
    put-IsValid (ensure_writable_bytes b (length bytes)) bytes e.0 e.1

-- How far the write index goes.
pub writer_index-retrieve :
    (b : Buffer) (len : ℕ) → IsValid b → (retrieve b len).writer_index ≤ b.writer_index
unfolding retrieve
writer_index-retrieve b len v = ground arith

writer_index-make_space :
    (b : Buffer) (len : ℕ) → IsValid b → (make_space b len).writer_index ≤ b.writer_index
unfolding make_space
writer_index-make_space b len v = ground (arith, readable_bytes_lem b v)

writer_index-ensure :
    (b : Buffer) (len : ℕ) → IsValid b → (ensure_writable_bytes b len).writer_index ≤ b.writer_index
unfolding ensure_writable_bytes
writer_index-ensure b len v = ground (arith, writer_index-make_space b len v)

pub writer_index-append :
    (b : Buffer) (bytes : List ℕ)
    → IsValid b
    → (append b bytes).writer_index ≤ b.writer_index + length bytes
unfolding append put
writer_index-append b bytes v = ground (arith, writer_index-ensure b (length bytes) v)
