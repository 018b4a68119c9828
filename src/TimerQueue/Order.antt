-- ===== src/TimerQueue/Order.antt =====
-- The set of entries: a list in strictly rising order.
use agora_im.Shared.{
  ◌≡◌, refl, ap, arith, true, false, List, [], ◌∷◌, ◌++◌, All, Has, All-map, inl, inr, Bool-cases,
}
use agora_im.TimerQueue.{Entry, entry_lt, insert_entry, split_expired}

abbrev pub Below : Entry → List Entry → Type 0
Below e es = All (λ (f : Entry). entry_lt e f ≡ true) es

abbrev pub Sorted : List Entry → Type 0
Sorted [] = Unit
Sorted (e ∷ es) = Below e es × Sorted es

pub entry_lt_irrefl : (e : Entry) → entry_lt e e ≡ false
unfolding entry_lt
entry_lt_irrefl e = ground arith

pub entry_lt_trans :
    (e f g : Entry) → entry_lt e f ≡ true → entry_lt f g ≡ true → entry_lt e g ≡ true
unfolding entry_lt
entry_lt_trans e f g p q = ground arith

pub entry_lt_tri : (e f : Entry) → entry_lt e f ≡ false → entry_lt f e ≡ false → e ≡ f
unfolding entry_lt
entry_lt_tri e f p q = ground arith

pub insert_entry-All :
    (P : Entry → Type 0) (e : Entry) (es : List Entry) → P e → All P es → All P (insert_entry e es)
unfolding insert_entry
insert_entry-All P e [] p h = (p, tt)
insert_entry-All P e (f ∷ fs) p h = elim (Bool-cases (entry_lt e f)) [
  | inl t ↦ rw t (p, h)
  | inr n ↦ elim (Bool-cases (entry_lt f e)) [
    | inl t ↦ rw (n, t) (h.0, insert_entry-All P e fs p h.1)
    | inr m ↦ rw (n, m) h
  ]
]

Below-trans : (e f : Entry) (es : List Entry) → entry_lt e f ≡ true → Below f es → Below e es
Below-trans e f es h b =
    All-map (λ (g : Entry). entry_lt f g ≡ true) (λ (g : Entry). entry_lt e g ≡ true)
      (λ g k. entry_lt_trans e f g h k) es b

pub insert_entry-Sorted : (e : Entry) (es : List Entry) → Sorted es → Sorted (insert_entry e es)
unfolding insert_entry
insert_entry-Sorted e [] s = (tt, tt)
insert_entry-Sorted e (f ∷ fs) s = elim (Bool-cases (entry_lt e f)) [
  | inl t ↦ rw t ((t, Below-trans e f fs t s.0), s)
  | inr n ↦ elim (Bool-cases (entry_lt f e)) [
    | inl t ↦
        rw (n, t)
          (
            insert_entry-All (λ (g : Entry). entry_lt f g ≡ true) e fs t s.0,
            insert_entry-Sorted e fs s.1,
          )
    | inr m ↦ rw (n, m) s
  ]
]

pub insert_entry-Has_self : (e : Entry) (es : List Entry) → Has e (insert_entry e es)
unfolding insert_entry
insert_entry-Has_self e [] = inl refl
insert_entry-Has_self e (f ∷ fs) = elim (Bool-cases (entry_lt e f)) [
  | inl t ↦ rw t (inl refl)
  | inr n ↦ elim (Bool-cases (entry_lt f e)) [
    | inl t ↦ rw (n, t) (inr (insert_entry-Has_self e fs))
    | inr m ↦ rw (n, m) (inl (entry_lt_tri e f n m))
  ]
]

pub insert_entry-Has : (e g : Entry) (es : List Entry) → Has g es → Has g (insert_entry e es)
unfolding insert_entry
insert_entry-Has e g [] h = absurd h
insert_entry-Has e g (f ∷ fs) h = elim (Bool-cases (entry_lt e f)) [
  | inl t ↦ rw t (inr h)
  | inr n ↦ elim (Bool-cases (entry_lt f e)) [
    | inl t ↦ rw (n, t) (elim h [ inl q ↦ inl q | inr k ↦ inr (insert_entry-Has e g fs k) ])
    | inr m ↦ rw (n, m) h
  ]
]

-- What `getExpired` splits off: all entries below the sentry, and no other.
pub split_expired-append :
    (s : Entry) (es : List Entry) → (split_expired s es).0 ++ (split_expired s es).1 ≡ es
unfolding split_expired
split_expired-append s [] = refl
split_expired-append s (e ∷ es) = elim (Bool-cases (entry_lt e s)) [
  | inl t ↦ rw t (ap (λ l. e ∷ l) (split_expired-append s es))
  | inr n ↦ rw n
]

pub split_expired-All :
    (s : Entry) (es : List Entry)
    → Sorted es
    → All (λ (e : Entry). entry_lt e s ≡ true) (split_expired s es).0
      × All (λ (e : Entry). entry_lt e s ≡ false) (split_expired s es).1
unfolding split_expired
split_expired-All s [] h = (tt, tt)
split_expired-All s (e ∷ es) h = elim (Bool-cases (entry_lt e s)) [
  | inl t ↦ let (a, b) = split_expired-All s es h.1 in rw t ((t, a), b)
  | inr n ↦ rw n (
    tt,
    (
      n,
      All-map (λ (f : Entry). entry_lt e f ≡ true) (λ (f : Entry). entry_lt f s ≡ false) (later n)
          es h.0,
    ),
  )
]
  where
    later : entry_lt e s ≡ false → (f : Entry) → entry_lt e f ≡ true → entry_lt f s ≡ false
    later n f q = elim (Bool-cases (entry_lt f s)) [
      | inl t ↦ absurd (cc (entry_lt_trans e f s q t))
      | inr m ↦ m
    ]

pub Sorted-append_right : (es fs : List Entry) → Sorted (es ++ fs) → Sorted fs
Sorted-append_right [] fs s = s
Sorted-append_right (e ∷ es) fs s = Sorted-append_right es fs s.1
