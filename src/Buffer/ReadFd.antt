-- ===== src/Buffer/ReadFd.antt =====
-- `readFd`: bytes that fill the buffer, and those that overflow into the area on the stack.
use agora_im.Shared.{
  ℕ, ◌+◌, ◌≤◌, ◌<◌, ◌≡◌, refl, ap, ◌∙◌, arith, List, ◌++◌, append_assoc, length, take, drop,
  overwrite, length-overwrite, take-append-drop, length-take, length-drop, ◌⊎◌, leb→le, leb→lt,
  max_bytes, leb, Bool-cases, inl, inr,
}
use agora_im.Buffer.{
  Buffer, writable_bytes, put, took, contents, read_fd, read_room, Answer, failed, moved,
}
use agora_im.Buffer.Valid.{IsValid, writable_bytes_lem, put-IsValid}
use agora_im.Buffer.Contents.{contents-put, contents-append}

module _ (b : Buffer) (bytes : List ℕ) (v : IsValid b) where
  -- `readFd` with the writable area filled is `put` of what fitted.
  filled :
      writable_bytes b < length bytes
      → ◌≡◌ {A = Buffer}
          (record b {
            buffer = overwrite b.buffer b.writer_index (take (writable_bytes b) bytes);
            writer_index = length b.buffer;
          })
          (put b (take (writable_bytes b) bytes))
  unfolding put
  filled over = ground (arith, length-take (writable_bytes b) bytes, writable_bytes_lem b v)

  length-buffer-put : length (put b (take (writable_bytes b) bytes)).buffer ≡ length b.buffer
  unfolding put
  length-buffer-put = length-overwrite b.buffer b.writer_index _

  -- The readable bytes after `readFd` got `bytes`, whether or not some went to the stack area.
  pub contents-took :
      length b.buffer + length bytes < max_bytes
      → IsValid (took b bytes) × (contents (took b bytes) ≡ contents b ++ bytes)
  unfolding took
  contents-took fits = elim (Bool-cases (leb (length bytes) (writable_bytes b))) [
    | inl room ↦
        let r = leb→le _ _ room in rw room (put-IsValid b bytes v r, contents-put b bytes v r)
    | inr over ↦
        let w = writable_bytes b in
        let t = length-take w bytes in
        let d = length-drop w bytes in
        let long : w < length bytes = leb→lt _ _ over in
        let u : IsValid (put b (take w bytes)) = put-IsValid b (take w bytes) v (omega arith) in
        let c =
          contents-append (put b (take w bytes)) (drop w bytes) u
            (omega (arith, length-buffer-put, u.inside)) in
        rw (over, filled long)
          (
            c.0,
            c.1
                ∙ ap (λ l. l ++ drop w bytes) (contents-put b (take w bytes) v (omega arith))
                ∙ append_assoc (contents b) (take w bytes) (drop w bytes)
                ∙ ap (λ l. contents b ++ l) (take-append-drop w bytes),
          )
  ]

-- `readFd` keeps a valid buffer valid. When `readv` fails it reports that and changes nothing;
-- else it reports how many bytes were read and adds them behind the readable ones. `readv` must
-- not give more than it was asked for, and the vector with that room must stay below its largest
-- size.
pub read_fd_lem :
    (readv : ℕ → Answer (List ℕ)) (b : Buffer)
    → IsValid b
    → ((n : ℕ) (bytes : List ℕ) → readv n ≡ moved bytes → length bytes ≤ n)
    → length b.buffer + read_room b < max_bytes
    → IsValid (read_fd readv b).1
      × (((e : ℕ) × (readv (read_room b) ≡ failed e) × (read_fd readv b ≡ (failed e, b)))
          ⊎ ((bytes : List ℕ) × (readv (read_room b) ≡ moved bytes)
              × ((read_fd readv b).0 ≡ moved (length bytes))
              × (contents (read_fd readv b).1 ≡ contents b ++ bytes)))
unfolding read_fd
read_fd_lem readv b v small fits = go (readv (read_room b)) refl
  where
    go :
        (a : Answer (List ℕ))
        → readv (read_room b) ≡ a
        → IsValid (read_fd readv b).1
          × (((e : ℕ) × (readv (read_room b) ≡ failed e) × (read_fd readv b ≡ (failed e, b)))
              ⊎ ((bytes : List ℕ) × (readv (read_room b) ≡ moved bytes)
                  × ((read_fd readv b).0 ≡ moved (length bytes))
                  × (contents (read_fd readv b).1 ≡ contents b ++ bytes)))
    go (failed e) q = rw (q, read_fd) (v, inl (e, refl, refl))
    go (moved bytes) q =
        let t = contents-took b bytes v (omega (arith, small (read_room b) bytes q)) in
        rw (q, read_fd) (t.0, inr (bytes, refl, refl, t.1))
