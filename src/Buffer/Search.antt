-- ===== src/Buffer/Search.antt =====
-- `findCRLF` and `retrieveUntil`: the first line end among the readable bytes.
use agora_im.Shared.{
  Free, ℕ, zero, suc, ◌+◌, ◌≤◌, ◌≡◌, ◌≢◌, refl, ap, ◌∙◌, arith, List, [], ◌∷◌, ◌++◌, length, take,
  drop, some, ◌==◌, Bool-cases, inl, inr, ◌&&◌, Option-cases,
}
use mathlib.Core.Option
use agora_im.Buffer.{Buffer, contents, search_crlf, find_crlf, retrieve_until, crlf_bytes, retrieve}
use agora_im.Buffer.Valid.{IsValid, readable_bytes_lem}
use agora_im.Buffer.Contents.{contents-retrieve, length-contents}

search_tail :
    (c d : ℕ) (xs : List ℕ) (i : ℕ)
    → search_crlf (c ∷ d ∷ xs) ≡ some (suc i)
    → search_crlf (d ∷ xs) ≡ some i
unfolding search_crlf
search_tail c d xs i e = elim (Bool-cases (c == b'\r' && d == b'\n')) [
  | inl t ↦ absurd (ground arith)
  | inr f ↦ elim (Option-cases (search_crlf (d ∷ xs))) [
    | inl n ↦ absurd (ground arith)
    | inr (j, s) ↦ ground arith
  ]
]

search_head :
    (c d : ℕ) (xs : List ℕ) → search_crlf (c ∷ d ∷ xs) ≡ some 0 → (c ≡ b'\r') × (d ≡ b'\n')
unfolding search_crlf
search_head c d xs e = elim (Bool-cases (c == b'\r' && d == b'\n')) [
  | inl t ↦ ground arith
  | inr f ↦ elim (Option-cases (search_crlf (d ∷ xs))) [
    | inl n ↦ absurd (ground arith)
    | inr (j, s) ↦ absurd (ground arith)
  ]
]

pub search_crlf_bound : (xs : List ℕ) (i : ℕ) → search_crlf xs ≡ some i → i + 2 ≤ length xs
search_crlf_bound [] i e = absurd (unfold search_crlf in cc)
search_crlf_bound (c ∷ []) i e = absurd (unfold search_crlf in cc)
search_crlf_bound (c ∷ d ∷ xs) zero e = omega arith
search_crlf_bound (c ∷ d ∷ xs) (suc i) e =
    omega (arith, search_crlf_bound (d ∷ xs) i (search_tail c d xs i e))

search_same :
    (c d : ℕ) (xs zs : List ℕ) (i : ℕ)
    → search_crlf (c ∷ d ∷ xs) ≡ some (suc i)
    → search_crlf (d ∷ zs) ≡ some i
    → search_crlf (c ∷ d ∷ zs) ≡ some (suc i)
unfolding search_crlf
search_same c d xs zs i e s = elim (Bool-cases (c == b'\r' && d == b'\n')) [
  | inl t ↦ absurd (ground arith)
  | inr f ↦ rw (s, f)
]

search_earlier :
    (c d : ℕ) (zs : List ℕ) (n i : ℕ)
    → search_crlf (d ∷ zs) ≡ some i
    → i ≤ n
    → (j : ℕ) × (search_crlf (c ∷ d ∷ zs) ≡ some j) × (j ≤ suc n)
unfolding search_crlf
search_earlier c d zs n i s h = elim (Bool-cases (c == b'\r' && d == b'\n')) [
  | inl t ↦ (0, rw t, omega arith)
  | inr f ↦ (suc i, rw (s, f), omega arith)
]

-- What is found is a line end: it splits the bytes there.
pub search_crlf-split :
    (xs : List ℕ) (i : ℕ)
    → search_crlf xs ≡ some i
    → xs ≡ take i xs ++ (crlf_bytes ++ drop (i + 2) xs)
search_crlf-split [] i e = absurd (unfold search_crlf in cc)
search_crlf-split (c ∷ []) i e = absurd (unfold search_crlf in cc)
search_crlf-split (c ∷ d ∷ xs) zero e = let h = search_head c d xs e in rw (h.0, h.1)
search_crlf-split (c ∷ d ∷ xs) (suc i) e =
    let k : suc i + 2 ≡ suc (i + 2) = omega arith in
    rw k (ap (λ l. c ∷ l) (search_crlf-split (d ∷ xs) i (search_tail c d xs i e)))

-- More bytes do not move the first line end.
pub search_crlf-append :
    (xs ys : List ℕ) (i : ℕ) → search_crlf xs ≡ some i → search_crlf (xs ++ ys) ≡ some i
search_crlf-append [] ys i e = absurd (unfold search_crlf in cc)
search_crlf-append (c ∷ []) ys i e = absurd (unfold search_crlf in cc)
search_crlf-append (c ∷ d ∷ xs) ys zero e =
    let h = search_head c d xs e in unfold search_crlf in rw (h.0, h.1)
search_crlf-append (c ∷ d ∷ xs) ys (suc i) e =
    let later = search_crlf-append (d ∷ xs) ys i (search_tail c d xs i e) in
    search_same c d xs (xs ++ ys) i e later

-- A line end that is there is found, or an earlier one.
pub search_crlf-first :
    (pre post : List ℕ)
    → (i : ℕ) × (search_crlf (pre ++ (crlf_bytes ++ post)) ≡ some i) × (i ≤ length pre)
search_crlf-first [] post = (0, unfold search_crlf in refl, omega arith)
search_crlf-first (c ∷ []) post =
    search_earlier c b'\r' (b'\n' ∷ post) 0 0 (unfold search_crlf in refl) (omega arith)
search_crlf-first (c ∷ d ∷ pre) post =
    let (i, e, h) = search_crlf-first (d ∷ pre) post in
    search_earlier c d (pre ++ (crlf_bytes ++ post)) (length (d ∷ pre)) i e h

search_skip :
    (c d : ℕ) (xs : List ℕ) (i : ℕ)
    → c ≢ b'\r'
    → search_crlf (d ∷ xs) ≡ some i
    → search_crlf (c ∷ d ∷ xs) ≡ some (suc i)
unfolding search_crlf
search_skip c d xs i h s = elim (Bool-cases (c == b'\r' && d == b'\n')) [
  | inl t ↦ absurd (ground arith)
  | inr f ↦ rw (s, f)
]

pub search_crlf-line :
    (line rest : List ℕ)
    → Free b'\r' line
    → search_crlf (line ++ (crlf_bytes ++ rest)) ≡ some (length line)
search_crlf-line [] rest h = unfold search_crlf in refl
search_crlf-line (c ∷ []) rest h =
    search_skip c b'\r' (b'\n' ∷ rest) 0 h.0 (unfold search_crlf in refl)
search_crlf-line (c ∷ d ∷ line) rest h =
    search_skip c d (line ++ (crlf_bytes ++ rest)) (length (d ∷ line)) h.0
      (search_crlf-line (d ∷ line) rest h.1)

-- `findCRLF` is the search among the readable bytes, as an index from the vector's beginning.
pub find_crlf_lem :
    (b : Buffer) → find_crlf b ≡ Option.map (λ i. b.reader_index + i) (search_crlf (contents b))
unfolding find_crlf
find_crlf_lem b = refl

retrieve_until_lem :
    (b : Buffer) (i : ℕ)
    → IsValid b
    → i ≤ length (contents b)
    → retrieve_until b (b.reader_index + i) ≡ retrieve b i
unfolding retrieve_until
retrieve_until_lem b i v h =
    ap (retrieve b) (omega (arith, length-contents b v, readable_bytes_lem b v))

-- `retrieveUntil` drops the readable bytes before its argument.
pub contents-retrieve_until :
    (b : Buffer) (i : ℕ)
    → IsValid b
    → i ≤ length (contents b)
    → IsValid (retrieve_until b (b.reader_index + i))
      × (contents (retrieve_until b (b.reader_index + i)) ≡ drop i (contents b))
contents-retrieve_until b i v h = rw (retrieve_until_lem b i v h) (contents-retrieve b i v)

-- When the readable bytes hold a line end, `findCRLF` gives the place of the first: two bytes
-- that are a line end, no later than any other.
pub find_crlf_first :
    (b : Buffer) (pre post : List ℕ)
    → contents b ≡ pre ++ (crlf_bytes ++ post)
    → (i : ℕ) × (find_crlf b ≡ some (b.reader_index + i))
      × (i ≤ length pre)
      × (contents b ≡ take i (contents b) ++ (crlf_bytes ++ drop (i + 2) (contents b)))
find_crlf_first b pre post e =
    let (i, s, h) = search_crlf-first pre post in
    let s' : search_crlf (contents b) ≡ some i = rw e s in
    (
      i,
      find_crlf_lem b ∙ ap (Option.map (λ (k : ℕ). b.reader_index + k)) s',
      h,
      search_crlf-split (contents b) i s',
    )
