-- ===== src/Http/Context/Streaming.antt =====
-- Reads cut the byte stream at any place: the parser comes to the same outcome.
use agora_im.Shared.{
  ◌+◌, ◌<◌, ◌≡◌, refl, arith, Bool, true, false, ◌++◌, some, Bytes, length, inl, inr, ◌⊎◌,
  Option-cases, Bool-cases, max_bytes,
}
use agora_im.Buffer.{Buffer, contents, append}
use agora_im.Buffer.Valid.{IsValid}
use agora_im.Buffer.Contents.{contents-append}
use agora_im.Http.Request.{HttpRequest}
use agora_im.Http.Context.{
  Context, ParseState, expect_request_line, expect_headers, expect_body, got_all, more, stop,
  Outcome, round_in, read_request_line, read_header, process_request_line, process_target,
  set_target, set_version, parse_request,
}
use agora_im.Http.Context.Lines.{bytes_line, bytes_line-append, Parses, stops, goes, Parses-unique}
use agora_im.Http.Context.Refine.{parse_request_lem, parse_request_returned}

-- A refused line is refused again, with the request as the first refusal left it.
process_request_line_refused :
    (r r' : HttpRequest) (line : Bytes)
    → process_request_line r line ≡ (false, r')
    → process_request_line r' line ≡ (false, r')
unfolding process_request_line process_target set_target set_version
process_request_line_refused r r' line e = ground arith

-- A refusing round, undone.
refused_inv :
    (c c' : Context) (xs s l r : Bytes) (ok : Bool)
    → c.state ≡ expect_request_line
    → read_request_line (some (l, r)) c xs ≡ stop ok c' s
    → (r' : HttpRequest) × (process_request_line c.request l ≡ (false, r'))
      × (c' ≡ record { state = expect_request_line; request = r' })
      × (s ≡ xs)
      × (ok ≡ false)
unfolding read_request_line
refused_inv c c' xs s l r ok h e = elim (Bool-cases (process_request_line c.request l).0) [
  | inl t ↦ absurd (ground arith)
  | inr f ↦
      ((process_request_line c.request l).1, ground arith, ground arith, ground arith, ground arith)
]

refuses :
    (c : Context) (xs l r : Bytes) (r' : HttpRequest)
    → c.state ≡ expect_request_line
    → process_request_line c.request l ≡ (false, r')
    → read_request_line (some (l, r)) c xs
      ≡ stop false (record { state = expect_request_line; request = r' }) xs
unfolding read_request_line
refuses c xs l r r' h e = ground arith

module _ (c c' : Context) (xs ys s : Bytes) where
  -- A round that goes on makes the same step with more bytes behind.
  pub round-append_more :
      (st : ParseState)
      → round_in bytes_line st c xs ≡ more c' s
      → round_in bytes_line st c (xs ++ ys) ≡ more c' (s ++ ys)
  unfolding round_in read_request_line read_header
  round-append_more expect_request_line e = elim (Option-cases (bytes_line xs)) [
    | inl n ↦ absurd (ground arith)
    | inr ((l, r), q) ↦ rw (bytes_line-append xs ys l r q) (ground arith)
  ]
  round-append_more expect_headers e = elim (Option-cases (bytes_line xs)) [
    | inl n ↦ absurd (ground arith)
    | inr ((l, r), q) ↦ rw (bytes_line-append xs ys l r q) (ground arith)
  ]
  round-append_more expect_body e = absurd (cc)
  round-append_more got_all e = absurd (cc)

  -- A round that stops takes nothing. It changes nothing either, or it refuses the line, and does
  -- so again whatever comes behind.
  pub round-append_stop :
      (st : ParseState) (ok : Bool)
      → c.state ≡ st
      → round_in bytes_line st c xs ≡ stop ok c' s
      → (s ≡ xs)
        × (((ok ≡ true) × (c' ≡ c))
            ⊎ ((ok ≡ false)
                × (round_in bytes_line st c (xs ++ ys) ≡ stop false c' (xs ++ ys))
                × (round_in bytes_line c'.state c' (xs ++ ys) ≡ stop false c' (xs ++ ys))))
  unfolding round_in read_header
  round-append_stop expect_request_line ok h e = elim (Option-cases (bytes_line xs)) [
    | inl n ↦ unfold read_request_line in (ground arith, inl (ground arith, ground arith))
    | inr ((l, r), q) ↦
        let (r', p, ec, es, eo) = refused_inv c c' xs s l r ok h (rw q at e) in
        let line = bytes_line-append xs ys l r q in
        let again =
          refuses (record { state = expect_request_line; request = r' }) (xs ++ ys) l (r ++ ys) r'
            refl (process_request_line_refused c.request r' l p) in
        (
          es,
          inr (eo, rw (line, ec) (refuses c (xs ++ ys) l (r ++ ys) r' h p), rw ec (rw line again)),
        )
  ]
  round-append_stop expect_headers ok h e = elim (Option-cases (bytes_line xs)) [
    | inl n ↦ (ground arith, inl (ground arith, ground arith))
    | inr ((l, r), q) ↦ absurd (ground arith)
  ]
  round-append_stop expect_body ok h e = (cc, inl (cc, cc))
  round-append_stop got_all ok h e = (cc, inl (cc, cc))

-- The rounds on a first part of the bytes, then those on the rest with it, are the rounds on all.
pub Parses-append :
    {c : Context} {xs : Bytes} {o : Outcome Bytes} (ys : Bytes) (later : Outcome Bytes)
    → Parses c xs o
    → Parses o.1 (o.2 ++ ys) later
    → Parses c (xs ++ ys) later
Parses-append {c} {xs} {o} ys later (stops e) p =
    let (es, cases) = round-append_stop c o.1 xs ys o.2 c.state o.0 refl e in
    elim cases [
      | inl (_, ec) ↦ rw (ec, es) at p
      | inr (_, here, again) ↦
          let same = Parses-unique (rw es at p) (stops {o = (false, o.1, xs ++ ys)} again) in
          rw same (stops here)
    ]
Parses-append ys later (goes {c = c} {c' = c'} {xs = xs} {xs' = xs'} e q) p =
    goes (round-append_more c c' xs ys xs' c.state e) (Parses-append ys later q p)

-- `parseRequest` on a valid buffer does not see how the bytes were cut into reads: parsing what
-- has come, and then the rest behind what it left, gives the same `ok`, the same context and the
-- same unread bytes as parsing once when all has come. Both appends must fit in a vector.
pub parse_request-append :
    (c c' : Context) (b b' : Buffer) (ok : Bool) (ys : Bytes)
    → IsValid b
    → b.writer_index + length ys < max_bytes
    → b'.writer_index + length ys < max_bytes
    → parse_request c b ≡ some (ok, c', b')
    → (o : Outcome Bytes) × (b₁ : Buffer) × (b₂ : Buffer) × (parse_request c' (append b' ys)
        ≡ some (o.0, o.1, b₁))
      × (parse_request c (append b ys) ≡ some (o.0, o.1, b₂))
      × (contents b₁ ≡ o.2)
      × (contents b₂ ≡ o.2)
parse_request-append c c' b b' ok ys v fits fits' e =
    let (v', p) = parse_request_returned c c' b b' ok v e in
    let (va, ea) = contents-append b ys v fits in
    let (va', ea') = contents-append b' ys v' fits' in
    let (o₁, b₁, e₁, h₁, p₁) = parse_request_lem c' (append b' ys) va' in
    let (o₂, b₂, e₂, h₂, p₂) = parse_request_lem c (append b ys) va in
    let one : o₁ ≡ o₂ = Parses-unique (Parses-append ys o₁ p (rw ea' at p₁)) (rw ea at p₂) in
    (o₂, b₁, b₂, rw one at e₁, e₂, rw one at h₁.same, h₂.same)
