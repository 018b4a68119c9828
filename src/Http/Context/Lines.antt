-- ===== src/Http/Context/Lines.antt =====
-- The parser over a plain byte string: its lines, and its rounds as a relation without fuel.
use agora_im.Shared.{
  Free, ℕ, zero, suc, ◌+◌, ◌≤◌, ◌<◌, ◌≡◌, refl, sym, ap, ap₂, subst, ◌∙◌, arith, Bool, ◌++◌, Option,
  none, some, Bytes, length, take, drop, length-drop, take_prefix, drop_prefix, take-append_left,
  drop-append_left, inl, inr, Option-cases,
}
use agora_im.Buffer.{search_crlf, crlf_bytes}
use agora_im.Buffer.Search.{search_crlf-append, search_crlf_bound, search_crlf-line}
use agora_im.Http.Context.{
  Context, ParseState, expect_request_line, expect_headers, expect_body, got_all, Round, more, stop,
  Outcome, LineSource, round_in, read_request_line, read_header, loop,
}

-- The bytes before the first line end, and those behind it.
pub bytes_line : LineSource Bytes
bytes_line xs = elim (search_crlf xs) [ none ↦ none | some i ↦ some (take i xs, drop (i + 2) xs) ]

some-injective :
    {l l' r r' : Bytes}
    → ◌≡◌ {A = Option (Bytes × Bytes)} (some (l, r)) (some (l', r'))
    → (l ≡ l') × (r ≡ r')
some-injective e = (cc, cc)

-- What a line tells of the bytes: where its end was found.
pub bytes_line_inv :
    (xs l r : Bytes)
    → bytes_line xs ≡ some (l, r)
    → (i : ℕ) × (search_crlf xs ≡ some i) × (l ≡ take i xs) × (r ≡ drop (i + 2) xs)
unfolding bytes_line
bytes_line_inv xs l r e = elim (Option-cases (search_crlf xs)) [
  | inl n ↦ absurd (ground arith)
  | inr (i, s) ↦ (i, s, ground arith, ground arith)
]

pub bytes_line_at :
    (xs : Bytes) (i : ℕ)
    → search_crlf xs ≡ some i
    → bytes_line xs ≡ some (take i xs, drop (i + 2) xs)
unfolding bytes_line
bytes_line_at xs i s = rw (s, bytes_line)

pub bytes_line-none : (xs : Bytes) → search_crlf xs ≡ none → bytes_line xs ≡ none
unfolding bytes_line
bytes_line-none xs n = rw (n, bytes_line)

pub bytes_line-shorter : (xs l r : Bytes) → bytes_line xs ≡ some (l, r) → length r + 2 ≤ length xs
bytes_line-shorter xs l r e =
    let (i, s, _, er) = bytes_line_inv xs l r e in
    omega (arith, ap length er, length-drop (i + 2) xs, search_crlf_bound xs i s)

pub bytes_line-append :
    (xs ys l r : Bytes) → bytes_line xs ≡ some (l, r) → bytes_line (xs ++ ys) ≡ some (l, r ++ ys)
bytes_line-append xs ys l r e =
    let (i, s, el, er) = bytes_line_inv xs l r e in
    let b = search_crlf_bound xs i s in
    bytes_line_at (xs ++ ys) i (search_crlf-append xs ys i s)
    ∙ ap₂ (λ (l r : Bytes). some (l, r)) (take-append_left i xs ys (omega arith) ∙ sym el)
        (drop-append_left (i + 2) xs ys (omega arith) ∙ ap (λ r. r ++ ys) (sym er))

pub bytes_line_lem :
    (line rest : Bytes)
    → Free b'\r' line
    → bytes_line (line ++ (crlf_bytes ++ rest)) ≡ some (line, rest)
bytes_line_lem line rest h =
    bytes_line_at (line ++ (crlf_bytes ++ rest)) (length line) (search_crlf-line line rest h)
    ∙ ap₂ (λ (l r : Bytes). some (l, r)) (take_prefix line (crlf_bytes ++ rest))
        (drop_prefix line (crlf_bytes ++ rest) (length line + 2) 2 refl)

-- The rounds that the loop makes from a state and an input to its outcome.
pub data Parses : Context → Bytes → Outcome Bytes → Type 0 where
  stops :
      {c : Context} {xs : Bytes} {o : Outcome Bytes}
      → round_in bytes_line c.state c xs ≡ stop o.0 o.1 o.2
      → Parses c xs o
  goes :
      {c c' : Context} {xs xs' : Bytes} {o : Outcome Bytes}
      → round_in bytes_line c.state c xs ≡ more c' xs'
      → Parses c' xs' o
      → Parses c xs o

-- A round that goes on has taken a line off the input.
pub more-line :
    (st : ParseState) (c c' : Context) (xs xs' : Bytes)
    → round_in bytes_line st c xs ≡ more c' xs'
    → (l : Bytes) × (bytes_line xs ≡ some (l, xs'))
unfolding round_in read_request_line read_header
more-line expect_request_line c c' xs xs' e = elim (Option-cases (bytes_line xs)) [
  | inl n ↦ absurd (ground arith)
  | inr ((l, r), s) ↦ (l, ground arith)
]
more-line expect_headers c c' xs xs' e = elim (Option-cases (bytes_line xs)) [
  | inl n ↦ absurd (ground arith)
  | inr ((l, r), s) ↦ (l, ground arith)
]
more-line expect_body c c' xs xs' e = absurd (cc)
more-line got_all c c' xs xs' e = absurd (cc)

-- What the loop gives with some fuel: an outcome that the rounds lead to.
abbrev Ends : ℕ → Context → Bytes → Type 0
Ends n c xs = (o : Outcome Bytes) × (loop bytes_line n c xs ≡ some o) × Parses c xs o

loop_round :
    (n : ℕ) (c : Context) (xs : Bytes) (r : Round Bytes)
    → round_in bytes_line c.state c xs ≡ r
    → ((c' : Context) (xs' : Bytes) → length xs' + 2 ≤ length xs → Ends n c' xs')
    → Ends (suc n) c xs
unfolding loop
loop_round n c xs (stop ok c' s) e later = ((ok, c', s), rw (e, loop), stops e)
loop_round n c xs (more c' s) e later =
    let (l, b) = more-line c.state c c' xs s e in
    let (o, q, p) = later c' s (bytes_line-shorter xs l s b) in (o, rw (e, loop) q, goes e p)

-- With fuel above the length of the input the loop has an outcome.
pub loop-Parses : (n : ℕ) (c : Context) (xs : Bytes) → length xs < n → Ends n c xs
loop-Parses zero c xs h = absurd (omega arith)
loop-Parses (suc n) c xs h =
    loop_round n c xs (round_in bytes_line c.state c xs) refl
      (λ c' xs' k. loop-Parses n c' xs' (omega arith))

stop-injective :
    {ok ok' : Bool} {c c' : Context} {s s' : Bytes}
    → ◌≡◌ {A = Round Bytes} (stop ok c s) (stop ok' c' s')
    → ◌≡◌ {A = Outcome Bytes} (ok, c, s) (ok', c', s')
stop-injective e = cc

more-injective :
    {c c' : Context} {s s' : Bytes}
    → ◌≡◌ {A = Round Bytes} (more c s) (more c' s')
    → ◌≡◌ {A = Context × Bytes} (c, s) (c', s')
more-injective e = cc

-- The outcome is determined.
pub Parses-unique :
    {c : Context} {xs : Bytes} {o o' : Outcome Bytes} → Parses c xs o → Parses c xs o' → o ≡ o'
Parses-unique (stops e) (stops f) = stop-injective (sym e ∙ f)
Parses-unique (stops e) (goes f q) = absurd (cc)
Parses-unique (goes e p) (stops f) = absurd (cc)
Parses-unique {o' = out} (goes e p) (goes f q) =
    Parses-unique p
      (subst (λ (w : Context × Bytes). Parses w.0 w.1 out) (more-injective (sym f ∙ e)) q)
