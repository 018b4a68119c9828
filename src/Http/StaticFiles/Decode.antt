-- ===== src/Http/StaticFiles/Decode.antt =====
-- `urlDecode` against an encoder.
use agora_im.Shared.{
  ℕ, zero, suc, ◌+◌, ◌/◌, ◌%◌, ◌<◌, ◌≡◌, ◌≢◌, ◌∙◌, ap, refl, sym, Bool, true, false, ◌&&◌, ◌||◌,
  Option, none, some, [], ◌∷◌, ◌++◌, append-nil, append_assoc, ltb, ◌==◌, if◌then◌else◌, Bool-cases,
  inl, inr, arith, Bytes, ==_iff,
}
use agora_im.Shared.Assertions.{◌>>=◌}
use agora_im.Http.StaticFiles.{
  is_space, hex_digit, more_digits, digits, starts_digit, after_prefix, signed, skip_spaces, stoi,
  to_char, plain, url_decode,
}

-- Over a small range, a table of all values.
all_below : ℕ → (ℕ → Bool) → Bool
all_below zero p = true
all_below (suc n) p = p n && all_below n p

below_all : (n : ℕ) (p : ℕ → Bool) (x : ℕ) → all_below n p ≡ true → x < n → p x ≡ true
unfolding all_below
below_all zero p x h lt = absurd (omega arith)
below_all (suc n) p x h lt = ground (arith, below_all n p x)

unfoldable pub hex : ℕ → ℕ
hex n = if ltb n 10 then n + 48 else n + 55

-- Percent-encoding of all bytes but those in `keep`.
unfoldable pub encode : (keep : ℕ → Bool) → Bytes → Bytes
encode keep [] = []
encode keep (c ∷ cs) =
    (if keep c then c ∷ [] else b'%' ∷ hex (c / 16) ∷ hex (c % 16) ∷ []) ++ encode keep cs

abbrev decodes_to : Option (Bool × ℕ) → ℕ → Bool
decodes_to none c = false
decodes_to (some n) c = to_char n == c

table : all_below 256 (λ c. decodes_to (stoi (hex (c / 16) ∷ hex (c % 16) ∷ [])) c) ≡ true
unfolding all_below stoi hex hex_digit more_digits digits starts_digit after_prefix signed
    skip_spaces is_space to_char
table = refl

decoded :
    (o : Option (Bool × ℕ)) (c : ℕ)
    → decodes_to o c ≡ true
    → (n : Bool × ℕ) × (o ≡ some n) × (to_char n ≡ c)
decoded none c h = absurd (cc)
decoded (some n) c h = (n, refl, (==_iff (to_char n) c).0 h)

-- What starts with an encoded byte.
hex_byte :
    (c : ℕ) (s : Bytes)
    → c < 256
    → url_decode (b'%' ∷ hex (c / 16) ∷ hex (c % 16) ∷ s)
      ≡ (url_decode s >>= λ rest. some (c ∷ rest))
unfolding url_decode
hex_byte c s h =
    let (n, e, t) =
      decoded (stoi (hex (c / 16) ∷ hex (c % 16) ∷ [])) c (below_all 256 _ c table h) in
    rw (e, t)

ne_false : (c d : ℕ) → c ≢ d → (c == d) ≡ false
ne_false c d h = ground arith

kept_plain : (c : ℕ) → c ≢ b'+' → plain c ≡ c
kept_plain c h = rw (ne_false c b'+' h)

kept_byte :
    (c : ℕ) (s : Bytes)
    → c ≢ b'%'
    → c ≢ b'+'
    → url_decode (c ∷ s) ≡ (url_decode s >>= λ rest. some (c ∷ rest))
unfolding url_decode
kept_byte c [] a b = rw (kept_plain c b)
kept_byte c (d ∷ []) a b = rw (kept_plain c b)
kept_byte c (d ∷ e ∷ cs) a b = rw (url_decode, ne_false c b'%' a, kept_plain c b)

-- The encoder leaves only bytes that stand for themselves.
pub record IsPlain (keep : ℕ → Bool) : Type 0 where
  pub percent : keep b'%' ≡ false
  pub plus : keep b'+' ≡ false

kept_ne : (keep : ℕ → Bool) (c d : ℕ) → keep c ≡ true → keep d ≡ false → c ≢ d
kept_ne keep c d h k e = absurd (cc (ap keep e))

abbrev pub AreBytes : Bytes → Type 0
AreBytes [] = Unit {0}
AreBytes (c ∷ cs) = (c < 256) × AreBytes cs

encoded_byte :
    (keep : ℕ → Bool) (c : ℕ) (s : Bytes)
    → IsPlain keep
    → c < 256
    → url_decode ((if keep c then c ∷ [] else b'%' ∷ hex (c / 16) ∷ hex (c % 16) ∷ []) ++ s)
      ≡ (url_decode s >>= λ rest. some (c ∷ rest))
encoded_byte keep c s p h = elim (Bool-cases (keep c)) [
  | inl k ↦ rw k (kept_byte c s (kept_ne keep c b'%' k p.percent) (kept_ne keep c b'+' k p.plus))
  | inr k ↦ rw k (hex_byte c s h)
]

bind_some : (o : Option Bytes) → (o >>= λ rest. some rest) ≡ o
bind_some none = refl
bind_some (some x) = refl

bind_cons :
    (o : Option Bytes) (c : ℕ) (s : Bytes)
    → ((o >>= λ rest. some (s ++ rest)) >>= λ rest. some (c ∷ rest))
      ≡ (o >>= λ rest. some (c ∷ s ++ rest))
bind_cons none c s = refl
bind_cons (some x) c s = refl

-- `urlDecode` of an encoded text and what follows: the text comes out as it was.
encode_then :
    (keep : ℕ → Bool) (s t : Bytes)
    → IsPlain keep
    → AreBytes s
    → url_decode (encode keep s ++ t) ≡ (url_decode t >>= λ rest. some (s ++ rest))
unfolding encode
encode_then keep [] t p b = sym (bind_some (url_decode t))
encode_then keep (c ∷ s) t p (h, b) =
    rw
      (
        append_assoc (if keep c then c ∷ [] else b'%' ∷ hex (c / 16) ∷ hex (c % 16) ∷ [])
            (encode keep s) t,
        encoded_byte keep c (encode keep s ++ t) p h,
        encode_then keep s t p b,
      )
      (bind_cons (url_decode t) c s)

-- `urlDecode` gives back any text of bytes from its percent-encoded form, whichever bytes the
-- encoder keeps as they are, provided that it encodes `%` and `+`.
pub url_decode-encode :
    (keep : ℕ → Bool) (s : Bytes) → IsPlain keep → AreBytes s → url_decode (encode keep s) ≡ some s
unfolding url_decode
url_decode-encode keep s p b =
    sym (ap url_decode (append-nil (encode keep s)))
    ∙ encode_then keep s [] p b
    ∙ ap (λ t. some t) (append-nil s)

-- A byte with which no number of base 16 begins.
pub record StartsNothing (c : ℕ) : Type 0 where
  pub digit : hex_digit c ≡ none
  pub space : is_space c ≡ false
  pub minus : (c == b'-') ≡ false
  pub plus : (c == b'+') ≡ false

no_prefix : (p q : Bool) (x y : Bytes) → (if p && q && false then x else y) ≡ y
no_prefix false q x y = refl
no_prefix true false x y = refl
no_prefix true true x y = refl

stoi_refuses : (c d : ℕ) → StartsNothing c → stoi (c ∷ d ∷ []) ≡ none
unfolding stoi skip_spaces signed after_prefix digits starts_digit
stoi_refuses c d n = rw (
  n.space,
  n.minus,
  n.plus,
  no_prefix (c == b'0') (d == b'x' || d == b'X') [] (c ∷ d ∷ []),
  digits,
  n.digit,
)

escape_throws : (c d : ℕ) (rest : Bytes) → StartsNothing c → url_decode (b'%' ∷ c ∷ d ∷ rest) ≡ none
unfolding url_decode
escape_throws c d rest n = rw (stoi_refuses c d n) refl

-- `urlDecode` throws at an escape whose first byte begins no number, whatever follows it.
pub url_decode_throws :
    (keep : ℕ → Bool) (s : Bytes) (c d : ℕ) (rest : Bytes)
    → IsPlain keep
    → AreBytes s
    → StartsNothing c
    → url_decode (encode keep s ++ b'%' ∷ c ∷ d ∷ rest) ≡ none
url_decode_throws keep s c d rest p b n =
    encode_then keep s (b'%' ∷ c ∷ d ∷ rest) p b
    ∙ ap (λ o. o >>= λ t. some (s ++ t)) (escape_throws c d rest n)
