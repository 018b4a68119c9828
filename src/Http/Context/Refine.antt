-- ===== src/Http/Context/Refine.antt =====
-- The parser on a buffer is the parser on its readable bytes, and always ends.
use agora_im.Shared.{
  ℕ, zero, suc, ◌+◌, ◌≡◌, refl, sym, ap, ◌∙◌, arith, Bool, true, false, Option, none, some, Bytes,
  take, drop, inl, inr, Option-cases, split_at, if◌then◌else◌, sub_size,
}
use mathlib.Core.Option
use agora_im.Buffer.{Buffer, contents, search_crlf, readable_bytes, find_crlf, peek, retrieve_until}
use agora_im.Buffer.Valid.{IsValid, readable_bytes_lem}
use agora_im.Buffer.Contents.{length-contents, take-contents}
use agora_im.Buffer.Search.{find_crlf_lem, search_crlf_bound, contents-retrieve_until}
use agora_im.Http.Request.{HttpRequest}
use agora_im.Http.Context.{
  Context, ParseState, expect_request_line, expect_headers, expect_body, got_all, Round, more, stop,
  Outcome, round_in, read_request_line, read_header, loop, process_request_line, buffer_line,
  parse_request,
}
use agora_im.Http.Context.Lines.{bytes_line, bytes_line_at, bytes_line-none, Parses, loop-Parses}

-- A valid buffer that holds the bytes.
pub record Holds (b : Buffer) (xs : Bytes) : Type 0 where
  pub valid : IsValid b
  pub same : contents b ≡ xs

abbrev SameLine : Option (Bytes × Buffer) → Option (Bytes × Bytes) → Type 0
SameLine none none = Unit {0}
SameLine none (some _) = ⊥
SameLine (some _) none = ⊥
SameLine (some (l, b)) (some (m, xs)) = (l ≡ m) × Holds b xs

abbrev SameRound : Round Buffer → Round Bytes → Type 0
SameRound (more c b) (more d xs) = (c ≡ d) × Holds b xs
SameRound (more c b) (stop ok d xs) = ⊥
SameRound (stop ok c b) (more d xs) = ⊥
SameRound (stop ok c b) (stop ok' d xs) = (ok ≡ ok') × (c ≡ d) × Holds b xs

abbrev SameOutcome : Option (Outcome Buffer) → Option (Outcome Bytes) → Type 0
SameOutcome none none = Unit {0}
SameOutcome none (some _) = ⊥
SameOutcome (some _) none = ⊥
SameOutcome (some (ok, c, b)) (some (ok', d, xs)) = (ok ≡ ok') × (c ≡ d) × Holds b xs

buffer_line_at :
    (b : Buffer) (i : ℕ)
    → IsValid b
    → search_crlf (contents b) ≡ some i
    → (b' : Buffer) × (buffer_line b ≡ some (take i (contents b), b'))
      × Holds b' (drop (i + 2) (contents b))
unfolding buffer_line peek
buffer_line_at b i v s =
    let bound = search_crlf_bound (contents b) i s in
    let l = length-contents b v in
    let r = readable_bytes_lem b v in
    let found : find_crlf b ≡ some (b.reader_index + i) =
      find_crlf_lem b ∙ ap (Option.map (λ (k : ℕ). b.reader_index + k)) s in
    let k : sub_size (b.reader_index + i) b.reader_index ≡ i = omega arith in
    let behind : b.reader_index + i + 2 ≡ b.reader_index + (i + 2) = omega arith in
    let (v', e) = contents-retrieve_until b (i + 2) v bound in
    (
      retrieve_until b (b.reader_index + (i + 2)),
      rw (found, k, behind, take-contents b i (omega arith), buffer_line),
      record { valid = v'; same = e },
    )

buffer_line-SameLine : (b : Buffer) → IsValid b → SameLine (buffer_line b) (bytes_line (contents b))
buffer_line-SameLine b v = elim (Option-cases (search_crlf (contents b))) [
  | inl n ↦ rw (bytes_line-none (contents b) n, no_line n) tt
  | inr (i, s) ↦
      let (b', e, h) = buffer_line_at b i v s in rw (bytes_line_at (contents b) i s, e) (refl, h)
]
  where
    no_line : search_crlf (contents b) ≡ none → buffer_line b ≡ none
    no_line n =
        let found : find_crlf b ≡ none =
          find_crlf_lem b ∙ ap (Option.map (λ (k : ℕ). b.reader_index + k)) n in
        unfold buffer_line in rw (found, buffer_line)

read_request_line-SameRound :
    (o : Option (Bytes × Buffer)) (o' : Option (Bytes × Bytes)) (c : Context) (b : Buffer)
    (xs : Bytes)
    → Holds b xs
    → SameLine o o'
    → SameRound (read_request_line o c b) (read_request_line o' c xs)
unfolding read_request_line
read_request_line-SameRound none none c b xs h same = (refl, refl, h)
read_request_line-SameRound none (some _) c b xs h same = absurd same
read_request_line-SameRound (some _) none c b xs h same = absurd same
read_request_line-SameRound (some (l, b')) (some (m, ys)) c b xs h same =
    rw (same.0) (go (process_request_line c.request m).0 (process_request_line c.request m).1)
  where
    go :
        (ok : Bool) (r : HttpRequest)
        → SameRound
            (if ok
              then more (record { state = expect_headers; request = r }) b'
              else stop false (record c { request = r }) b)
            (if ok
              then more (record { state = expect_headers; request = r }) ys
              else stop false (record c { request = r }) xs)
    go true r = (refl, same.1)
    go false r = (refl, refl, h)

read_header-SameRound :
    (o : Option (Bytes × Buffer)) (o' : Option (Bytes × Bytes)) (c : Context) (b : Buffer)
    (xs : Bytes)
    → Holds b xs
    → SameLine o o'
    → SameRound (read_header o c b) (read_header o' c xs)
unfolding read_header
read_header-SameRound none none c b xs h same = (refl, refl, h)
read_header-SameRound none (some _) c b xs h same = absurd same
read_header-SameRound (some _) none c b xs h same = absurd same
read_header-SameRound (some (l, b')) (some (m, ys)) c b xs h same =
    elim (Option-cases (split_at b':' m)) [
      | inl n ↦ rw (same.0, n, read_header) (refl, same.1)
      | inr ((k, v), s) ↦ rw (same.0, s, read_header) (refl, same.1)
    ]

-- The same line makes the same round.
round_SameRound :
    (st : ParseState) (c : Context) (b : Buffer) (xs : Bytes)
    → Holds b xs
    → SameLine (buffer_line b) (bytes_line xs)
    → SameRound (round_in buffer_line st c b) (round_in bytes_line st c xs)
unfolding round_in
round_SameRound expect_request_line c b xs h same =
    read_request_line-SameRound (buffer_line b) (bytes_line xs) c b xs h same
round_SameRound expect_headers c b xs h same =
    read_header-SameRound (buffer_line b) (bytes_line xs) c b xs h same
round_SameRound expect_body c b xs h same = (refl, refl, h)
round_SameRound got_all c b xs h same = (refl, refl, h)

next_SameOutcome :
    (n : ℕ) (r : Round Buffer) (r' : Round Bytes)
    → SameRound r r'
    → ((c : Context) (b : Buffer) (xs : Bytes)
        → Holds b xs
        → SameOutcome (loop buffer_line n c b) (loop bytes_line n c xs))
    → SameOutcome
        (elim r [ more c' s' ↦ loop buffer_line n c' s' | stop ok c' s' ↦ some (ok, c', s') ])
        (elim r' [ more c' s' ↦ loop bytes_line n c' s' | stop ok c' s' ↦ some (ok, c', s') ])
next_SameOutcome n (more c b) (more d xs) same later = rw (same.0) (later d b xs same.1)
next_SameOutcome n (more c b) (stop ok d xs) same later = absurd same
next_SameOutcome n (stop ok c b) (more d xs) same later = absurd same
next_SameOutcome n (stop ok c b) (stop ok' d xs) same later = same

loop-SameOutcome :
    (n : ℕ) (c : Context) (b : Buffer) (xs : Bytes)
    → Holds b xs
    → SameOutcome (loop buffer_line n c b) (loop bytes_line n c xs)
unfolding loop
loop-SameOutcome zero c b xs h = tt
loop-SameOutcome (suc n) c b xs h =
    next_SameOutcome n (round_in buffer_line c.state c b) (round_in bytes_line c.state c xs)
      (round_SameRound c.state c b xs h (rw h.same at (buffer_line-SameLine b h.valid)))
      (loop-SameOutcome n)

same_some :
    (r : Option (Outcome Buffer)) (o : Outcome Bytes)
    → SameOutcome r (some o)
    → (b : Buffer) × (r ≡ some (o.0, o.1, b)) × Holds b o.2
same_some none o h = absurd h
same_some (some (ok, c, b)) (ok', d, xs) h = (b, rw (h.0, h.1), h.2)

-- `parseRequest` on a valid buffer always returns, leaves the buffer valid, and does what the
-- rounds on its readable bytes do.
pub parse_request_lem :
    (c : Context) (b : Buffer)
    → IsValid b
    → (o : Outcome Bytes) × (b' : Buffer) × (parse_request c b ≡ some (o.0, o.1, b'))
      × Holds b' o.2
      × Parses c (contents b) o
unfolding parse_request
parse_request_lem c b v =
    let n = readable_bytes b + 1 in
    let (o, e, p) = loop-Parses n c (contents b) (omega (arith, length-contents b v)) in
    let same = loop-SameOutcome n c b (contents b) (record { valid = v; same = refl }) in
    let (b', q, h) = same_some (loop buffer_line n c b) o (rw e at same) in (o, b', q, h, p)

outcome_eq :
    (o : Outcome Bytes) (b : Buffer) (ok : Bool) (c' : Context) (b' : Buffer)
    → ◌≡◌ {A = Option (Outcome Buffer)} (some (o.0, o.1, b)) (some (ok, c', b'))
    → contents b ≡ o.2
    → (◌≡◌ {A = Outcome Bytes} o (ok, c', contents b')) × (b ≡ b')
outcome_eq o b ok c' b' e h = (cc, cc)

-- What a call that returned has done.
pub parse_request_returned :
    (c c' : Context) (b b' : Buffer) (ok : Bool)
    → IsValid b
    → parse_request c b ≡ some (ok, c', b')
    → IsValid b' × Parses c (contents b) (ok, c', contents b')
parse_request_returned c c' b b' ok v e =
    let (o, b₀, e₀, h, p) = parse_request_lem c b v in
    let (eo, eb) = outcome_eq o b₀ ok c' b' (sym e₀ ∙ e) h.same in (rw eb at h.valid, rw eo at p)
