-- ===== src/Buffer/Contents.antt =====
-- What each operation does to the readable bytes.
use agora_im.Shared.{
  ℕ, ◌+◌, ◌-◌, ◌≤◌, ◌<◌, ◌≡◌, refl, sym, ap, ◌∙◌, arith, List, [], ◌++◌, length, take, drop, range,
  range-overwrite, range-resize, length-range, take_all, drop_all, drop-range, sub_size, take-take,
  leb→le, le→leb, if◌then◌else◌, max_bytes, add_size, some, none, ltb, leb, ltb→lt, ltb→le,
  Bool-cases, inl, inr,
}
use agora_im.Buffer.{
  Buffer, readable_bytes, writable_bytes, prependable_bytes, cheap_prepend, retrieve,
  retrieve_as_string, retrieve_all_as_string, make_space, ensure_writable_bytes, put, append,
  peek_range, contents,
}
use agora_im.Buffer.Valid.{
  IsValid, readable_bytes_lem, writable_bytes_lem, ensure_writable_bytes-IsValid, put-IsValid,
  append-IsValid, retrieve-IsValid,
}

-- The readable bytes, by the two indices.
pub contents_lem :
    (b : Buffer)
    → IsValid b
    → contents b ≡ range b.buffer b.reader_index (b.writer_index - b.reader_index)
unfolding contents
contents_lem b v = rw (readable_bytes_lem b v)

pub length-contents : (b : Buffer) → IsValid b → length (contents b) ≡ readable_bytes b
unfolding contents
length-contents b v =
    length-range b.buffer b.reader_index (readable_bytes b) (omega (arith, readable_bytes_lem b v))

range-put :
    (b : Buffer) (bytes : List ℕ)
    → IsValid b
    → length bytes ≤ writable_bytes b
    → range (put b bytes).buffer b.reader_index ((put b bytes).writer_index - b.reader_index)
      ≡ range b.buffer b.reader_index (b.writer_index - b.reader_index) ++ bytes
unfolding put
range-put b bytes v room =
    let e = writable_bytes_lem b v in
    range-overwrite b.buffer bytes b.reader_index (b.writer_index - b.reader_index) b.writer_index
      (add_size b.writer_index (length bytes) - b.reader_index) (omega arith) (omega arith)
      (omega arith)

reader_index-put : (b : Buffer) (bytes : List ℕ) → (put b bytes).reader_index ≡ b.reader_index
unfolding put
reader_index-put b bytes = refl

pub contents-put :
    (b : Buffer) (bytes : List ℕ)
    → IsValid b
    → length bytes ≤ writable_bytes b
    → contents (put b bytes) ≡ contents b ++ bytes
contents-put b bytes v room =
    rw (contents_lem (put b bytes) (put-IsValid b bytes v room), contents_lem b v, reader_index-put)
      (range-put b bytes v room)

module _ (b : Buffer) (len : ℕ) (v : IsValid b) (fits : b.writer_index + len < max_bytes) where
  contents-make_space : writable_bytes b < len → contents (make_space b len) ≡ contents b
  unfolding make_space contents
  contents-make_space short =
      let r = readable_bytes_lem b v in
      let w = writable_bytes_lem b v in
      let n = readable_bytes b in
      let held = length-range b.buffer b.reader_index n (omega arith) in
      elim (Bool-cases
        (ltb (add_size (prependable_bytes b) (writable_bytes b)) (add_size len cheap_prepend))) [
          | inl grow ↦
              rw (grow, make_space)
                (range-resize b.buffer b.reader_index n (add_size b.writer_index len) 0
                  (omega arith) (omega arith))
          | inr move ↦
              rw (move, make_space)
                (range-overwrite b.buffer (peek_range b n) cheap_prepend 0 cheap_prepend _
                  (omega arith) (omega (arith, held)) (omega (arith, held)))
        ]

  -- Making room changes no readable byte, and gives the room.
  pub contents-ensure_writable_bytes : contents (ensure_writable_bytes b len) ≡ contents b
  unfolding ensure_writable_bytes
  contents-ensure_writable_bytes = elim (Bool-cases (ltb (writable_bytes b) len)) [
    | inl short ↦ rw short (contents-make_space (ltb→lt _ _ short))
    | inr room ↦ rw room
  ]

-- `append` keeps a valid buffer valid and adds the bytes behind the readable ones, whether it has
-- room, moves the readable bytes to the front or grows the vector. The bytes must fit behind the
-- writer index without reaching the vector's largest size.
pub contents-append :
    (b : Buffer) (bytes : List ℕ)
    → IsValid b
    → b.writer_index + length bytes < max_bytes
    → IsValid (append b bytes) × (contents (append b bytes) ≡ contents b ++ bytes)
unfolding append
contents-append b bytes v fits =
    let e = ensure_writable_bytes-IsValid b (length bytes) v fits in
    (
      append-IsValid b bytes v fits,
      contents-put (ensure_writable_bytes b (length bytes)) bytes e.0 e.1
          ∙ ap (λ l. l ++ bytes) (contents-ensure_writable_bytes b (length bytes) v fits),
    )

retrieve-range :
    (b : Buffer) (len : ℕ)
    → IsValid b
    → contents (retrieve b len)
      ≡ drop len (range b.buffer b.reader_index (b.writer_index - b.reader_index))
unfolding retrieve contents
retrieve-range b len v =
    let r = readable_bytes_lem b v in
    let n = b.writer_index - b.reader_index in
    elim (Bool-cases (ltb len (readable_bytes b))) [
      | inl less ↦
          let short = ltb→lt _ _ less in
          let e : sub_size b.writer_index (add_size b.reader_index len) ≡ n - len = omega arith in
          rw (less, retrieve, e) (sym (drop-range b.buffer b.reader_index n len _ (omega arith)))
      | inr all ↦
          let long = ltb→le _ _ all in
          let held = length-range b.buffer b.reader_index n (omega arith) in
          rw (all, retrieve) (sym (drop_all len _ (omega (arith, held))))
    ]

-- `retrieve` drops what it is told to, or all that there is, and keeps a valid buffer valid.
pub contents-retrieve :
    (b : Buffer) (len : ℕ)
    → IsValid b
    → IsValid (retrieve b len) × (contents (retrieve b len) ≡ drop len (contents b))
contents-retrieve b len v =
    (retrieve-IsValid b len v, rw (contents_lem b v) (retrieve-range b len v))

pub take-contents :
    (b : Buffer) (len : ℕ) → len ≤ readable_bytes b → take len (contents b) ≡ peek_range b len
unfolding contents
take-contents b len h = take-take len (readable_bytes b) _ h

-- `retrieveAsString` returns the first `len` readable bytes and drops them; its assertion fails
-- just when fewer are there.
pub retrieve_as_string_lem :
    (b : Buffer) (len : ℕ)
    → IsValid b
    → retrieve_as_string b len ≡ (
        if leb len (length (contents b))
        then some (take len (contents b), retrieve b len)
        else none)
unfolding retrieve_as_string
retrieve_as_string_lem b len v = elim (Bool-cases (leb len (readable_bytes b))) [
  | inl enough ↦ rw (length-contents b v, enough, take-contents b len (leb→le _ _ enough))
  | inr short ↦ rw (length-contents b v, short)
]

-- `retrieveAllAsString` on a valid buffer never fails an assertion: it returns all readable
-- bytes, leaves none, and keeps the buffer valid.
pub retrieve_all_as_string_lem :
    (b : Buffer)
    → IsValid b
    → (b' : Buffer) × (retrieve_all_as_string b ≡ some (contents b, b'))
      × IsValid b'
      × (contents b' ≡ [])
unfolding retrieve_all_as_string
retrieve_all_as_string_lem b v = (
  retrieve b (readable_bytes b),
  retrieve_as_string_lem b (readable_bytes b) v
      ∙ rw (
        le→leb (readable_bytes b) (length (contents b)) (omega (arith, l)),
        take_all (readable_bytes b) (contents b) (omega (arith, l)),
      ),
  retrieve-IsValid b _ v,
  (contents-retrieve b (readable_bytes b) v).1 ∙ drop_all _ (contents b) (omega (arith, l)),
)
  where
    l : length (contents b) ≡ readable_bytes b
    l = length-contents b v
