-- ===== src/Http/Context/Pieces.antt =====
-- The first part of a request that is not yet complete.
use agora_im.Shared.{
  suc, ◌<◌, ◌≡◌, ap, refl, sym, subst, arith, true, false, ◌++◌, Bytes, length, length-append, inl,
  inr, Bool-cases,
}
use agora_im.Http.Context.{
  Context, ParseState, expect_request_line, expect_headers, expect_body, got_all, Outcome, round_in,
  got_all_test, new,
}
use agora_im.Http.Context.Lines.{Parses, stops, goes, Parses-unique, loop-Parses}
use agora_im.Http.Context.Streaming.{round-append_more, round-append_stop, Parses-append}
use agora_im.Http.Context.RoundTrip.{Message, written, meant, IsClean, written-Parses}

got_all_state :
    (st : ParseState) (c : Context) → c.state ≡ st → got_all_test c ≡ true → c.state ≡ got_all
unfolding got_all_test
got_all_state got_all c e h = e
got_all_state expect_request_line c e h = absurd (cc (rw (got_all_test, e) at h))
got_all_state expect_headers c e h = absurd (cc (rw (got_all_test, e) at h))
got_all_state expect_body c e h = absurd (cc (rw (got_all_test, e) at h))

-- A line that is refused is refused with more bytes behind.
refused-Parses :
    {c : Context} {xs : Bytes} {o : Outcome Bytes} (ys : Bytes)
    → Parses c xs o
    → o.0 ≡ false
    → (s : Bytes) × Parses c (xs ++ ys) (false, o.1, s)
refused-Parses {c} {xs} {o} ys (stops e) f =
    let (es, cases) = round-append_stop c o.1 xs ys o.2 c.state o.0 refl e in
    elim cases [
      | inl (t, ec) ↦ absurd (cc)
      | inr (_, here, again) ↦ (xs ++ ys, stops {o = (false, o.1, xs ++ ys)} here)
    ]
refused-Parses ys (goes {c = c} {c' = c'} {xs = xs} {xs' = xs'} e q) f =
    let (s, p) = refused-Parses ys q f in (s, goes (round-append_more c c' xs ys xs' c.state e) p)

complete-Parses : (c : Context) (xs : Bytes) → c.state ≡ got_all → Parses c xs (true, c, xs)
unfolding round_in
complete-Parses c xs h = stops (rw (h, round_in) refl)

-- The first part of a clean request parses well without being complete, when some of the request
-- is in the second part; and the second part behind what was left completes it.
pub early-Parses :
    (m : Message) (pre post rest : Bytes) (o : Outcome Bytes)
    → IsClean m
    → pre ++ post ≡ written m rest
    → length rest < length post
    → Parses new pre o
    → (o.0 ≡ true)
      × (got_all_test o.1 ≡ false)
      × Parses o.1 (o.2 ++ post) (true, record { state = got_all; request = meant m }, rest)
early-Parses m pre post rest o w e some_more p =
    let whole =
      subst (λ x. Parses new x (true, record { state = got_all; request = meant m }, rest)) (sym e)
        (written-Parses m rest w) in
    let (later, _, q) = loop-Parses (suc (length (o.2 ++ post))) o.1 (o.2 ++ post) (omega arith) in
    let last = Parses-unique (Parses-append post later p q) whole in
    let final = subst (λ x. Parses o.1 (o.2 ++ post) x) last q in
    (
      elim (Bool-cases o.0) [
        | inl t ↦ t
        | inr f ↦ absurd (cc (Parses-unique (refused-Parses post p f).1 whole))
      ],
      elim (Bool-cases (got_all_test o.1)) [
        | inr n ↦ n
        | inl y ↦
            let done = complete-Parses o.1 (o.2 ++ post) (got_all_state o.1.state o.1 refl y) in
            let same = ap (λ (x : Outcome Bytes). length x.2) (Parses-unique done final) in
            absurd (omega (arith, same, length-append o.2 post, some_more))
      ],
      final,
    )
