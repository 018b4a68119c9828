-- ===== src/Http/Context/Refused.antt =====
-- Where the parser refuses its input.
use agora_im.Shared.{
  ◌≡◌, refl, true, false, Option, none, some, Bool-cases, Option-cases, inl, inr, Bytes, split_at,
  subst,
}
use agora_im.Http.Context.{
  Context, ParseState, expect_request_line, expect_headers, expect_body, got_all, Round, more, stop,
  round_in, read_request_line, read_header, process_request_line, got_all_test,
}
use agora_im.Http.Context.Lines.{bytes_line, Parses, stops, goes}

-- Only a request line can be refused.
Refuses : Round Bytes → Type 0
Refuses (more c xs) = Unit {0}
Refuses (stop true c xs) = Unit {0}
Refuses (stop false c xs) = c.state ≡ expect_request_line

request_line-Refuses :
    (o : Option (Bytes × Bytes)) (c : Context) (xs : Bytes)
    → c.state ≡ expect_request_line
    → Refuses (read_request_line o c xs)
unfolding read_request_line Refuses
request_line-Refuses none c xs h = tt
request_line-Refuses (some (line, rest)) c xs h =
    elim (Bool-cases (process_request_line c.request line).0) [ inl e ↦ rw e tt | inr e ↦ rw e h ]

header-Refuses :
    (o : Option (Bytes × Bytes)) (c : Context) (xs : Bytes) → Refuses (read_header o c xs)
unfolding read_header Refuses
header-Refuses none c xs = tt
header-Refuses (some (line, rest)) c xs = elim (Option-cases (split_at b':' line)) [
  | inl e ↦ rw (read_header, e) tt
  | inr (kv, e) ↦ rw (read_header, e) tt
]

round-Refuses :
    (st : ParseState) (c : Context) (xs : Bytes)
    → c.state ≡ st
    → Refuses (round_in bytes_line st c xs)
unfolding round_in Refuses
round-Refuses expect_request_line c xs h = request_line-Refuses (bytes_line xs) c xs h
round-Refuses expect_headers c xs h = header-Refuses (bytes_line xs) c xs
round-Refuses expect_body c xs h = tt
round-Refuses got_all c xs h = tt

pub Parses-refuses :
    (c c' : Context) (xs ys : Bytes) → Parses c xs (false, c', ys) → c'.state ≡ expect_request_line
unfolding Refuses
Parses-refuses c c' xs ys (stops e) = subst Refuses e (round-Refuses c.state c xs refl)
Parses-refuses c c' xs ys (goes {c' = d} {xs' = zs} e p) = Parses-refuses d c' zs ys p

pub refused_not_all : (c : Context) → c.state ≡ expect_request_line → got_all_test c ≡ false
unfolding got_all_test
refused_not_all c h = rw h refl
