-- ===== src/TimerQueue/Heap.antt =====
-- Entries and the timers that they point to.
use agora_im.Shared.{
  ℕ, ◌<◌, ◌≡◌, ◌≢◌, refl, sym, ap, ◌∙◌, arith, true, Option, none, some, List, [], ◌∷◌, All, Has,
  All-map, All-zip, ◌⊎◌, inl, inr, Bool-cases, ◌==◌, Option-cases,
}
use agora_im.TimerQueue.{Entry, Timer, Heap, store, max_address, erase_timer, entry_lt}
use agora_im.TimerQueue.Order.{Sorted, Below}

-- The entry points to a timer that is alive and expires when the entry says.
abbrev pub Alive : Heap → Entry → Type 0
Alive h e = (t : Timer) × (h e.timer ≡ some t) × (t.expiration ≡ e.time) × (e.timer < max_address)

-- The entry points to a timer that is alive.
abbrev pub Live : Heap → Entry → Type 0
Live h e = (t : Timer) × (h e.timer ≡ some t) × (e.timer < max_address)

-- No entry points to the address.
abbrev pub Fresh : ℕ → List Entry → Type 0
Fresh a = All (λ (e : Entry). e.timer ≢ a)

pub store_self : (h : Heap) (a : ℕ) (t : Option Timer) → store h a t a ≡ t
store_self h a t = ground arith

pub store_other : (h : Heap) (a b : ℕ) (t : Option Timer) → b ≢ a → store h a t b ≡ h b
store_other h a b t n = ground arith

pub Alive-store :
    (h : Heap) (a : ℕ) (t : Option Timer) (es : List Entry)
    → All (Alive h) es
    → Fresh a es
    → All (Alive (store h a t)) es
Alive-store h a t es =
    All-zip (Alive h) (λ (e : Entry). e.timer ≢ a) (Alive (store h a t))
      (λ e l n. (l.0, store_other h a e.timer t n ∙ l.1, l.2, l.3)) es

pub Live-store :
    (h : Heap) (a : ℕ) (t : Option Timer) (es : List Entry)
    → All (Live h) es
    → Fresh a es
    → All (Live (store h a t)) es
Live-store h a t es =
    All-zip (Live h) (λ (e : Entry). e.timer ≢ a) (Live (store h a t))
      (λ e l n. (l.0, store_other h a e.timer t n ∙ l.1, l.2)) es

not_none : (t : Timer) → ◌≢◌ {A = Option Timer} none (some t)
not_none t e = cc

-- An address that `new` may give is not pointed to.
pub Fresh-free : (h : Heap) (a : ℕ) (es : List Entry) → h a ≡ none → All (Live h) es → Fresh a es
Fresh-free h a es n =
    All-map (Live h) (λ (e : Entry). e.timer ≢ a)
      (λ e l q. not_none l.0 (sym n ∙ sym (ap h q) ∙ l.1)) es

pub Alive-Live : (h : Heap) (es : List Entry) → All (Alive h) es → All (Live h) es
Alive-Live h es = All-map (Alive h) (Live h) (λ e l. (l.0, l.1, l.3)) es

same_time : (h : Heap) (e f : Entry) → Alive h e → Alive h f → e.timer ≡ f.timer → e.time ≡ f.time
same_time h e f a b q =
    let t : ◌≡◌ {A = Option Timer} (some a.0) (some b.0) = sym a.1 ∙ ap h q ∙ b.1 in
    expires a.0 b.0 t a.2 b.2
  where
    expires :
        (s t : Timer)
        → ◌≡◌ {A = Option Timer} (some s) (some t)
        → s.expiration ≡ e.time
        → t.expiration ≡ f.time
        → e.time ≡ f.time
    expires s t q p r = cc

lt_ne : (e f : Entry) → entry_lt e f ≡ true → e.timer ≡ f.timer → e.time ≢ f.time
unfolding entry_lt
lt_ne e f h q r = ground arith

-- A timer stands in the set at most once.
pub Fresh-sorted :
    (h : Heap) (e : Entry) (es : List Entry)
    → Alive h e
    → All (Alive h) es
    → Below e es
    → Fresh e.timer es
Fresh-sorted h e es a =
    All-zip (Alive h) (λ (f : Entry). entry_lt e f ≡ true) (λ (f : Entry). f.timer ≢ e.timer)
      (λ f b l q. lt_ne e f l (sym q) (same_time h e f a b (sym q))) es

-- The two ways in which the loop of `cancelInLoop` finds the timer.
erase_timer_inv :
    (a : ℕ) (e : Entry) (es fs : List Entry)
    → erase_timer a (e ∷ es) ≡ some fs
    → ((e.timer ≡ a) × (es ≡ fs))
      ⊎ ((e.timer ≢ a) × (gs : List Entry) × (erase_timer a es ≡ some gs) × (fs ≡ e ∷ gs))
unfolding erase_timer
erase_timer_inv a e es fs q = elim (Bool-cases (e.timer == a)) [
  | inl t ↦ inl (ground arith, ground arith)
  | inr n ↦ elim (Option-cases (erase_timer a es)) [
    | inl m ↦ absurd (ground arith)
    | inr (gs, m) ↦ inr (ground arith, gs, m, ground arith)
  ]
]

pub erase_timer-All :
    (P : Entry → Type 0) (a : ℕ) (es fs : List Entry)
    → erase_timer a es ≡ some fs
    → All P es
    → All P fs
erase_timer-All P a [] fs q h = absurd (unfold erase_timer in cc)
erase_timer-All P a (e ∷ es) fs q h = elim (erase_timer_inv a e es fs q) [
  | inl (_, r) ↦ rw (← r) (h.1)
  | inr (_, gs, m, r) ↦ rw r (h.0, erase_timer-All P a es gs m h.1)
]

pub erase_timer-Sorted :
    (a : ℕ) (es fs : List Entry) → erase_timer a es ≡ some fs → Sorted es → Sorted fs
erase_timer-Sorted a [] fs q s = absurd (unfold erase_timer in cc)
erase_timer-Sorted a (e ∷ es) fs q s = elim (erase_timer_inv a e es fs q) [
  | inl (_, r) ↦ rw (← r) (s.1)
  | inr (_, gs, m, r) ↦ rw r (
    erase_timer-All (λ (f : Entry). entry_lt e f ≡ true) a es gs m s.0,
    erase_timer-Sorted a es gs m s.1,
  )
]

-- The timer found was in the set, and is not any more.
pub erase_timer-Fresh :
    (h : Heap) (a : ℕ) (es fs : List Entry)
    → erase_timer a es ≡ some fs
    → Sorted es
    → All (Alive h) es
    → Fresh a fs × (e : Entry) × Has e es × (e.timer ≡ a)
erase_timer-Fresh h a [] fs q s l = absurd (unfold erase_timer in cc)
erase_timer-Fresh h a (e ∷ es) fs q s l = elim (erase_timer_inv a e es fs q) [
  | inl (t, r) ↦ (rw (← r, ← t) (Fresh-sorted h e es l.0 l.1 s.0), e, inl refl, t)
  | inr (n, gs, m, r) ↦
      let (f, g, i, t) = erase_timer-Fresh h a es gs m s.1 l.1 in (rw r (n, f), g, inr i, t)
]

-- The other timers stay.
pub erase_timer-Has :
    (a : ℕ) (es fs : List Entry) (g : Entry)
    → erase_timer a es ≡ some fs
    → g.timer ≢ a
    → Has g es
    → Has g fs
erase_timer-Has a [] fs g q n h = absurd h
erase_timer-Has a (e ∷ es) fs g q n (inl i) = elim (erase_timer_inv a e es fs q) [
  | inl (t, r) ↦ absurd (n (ap (λ (x : Entry). x.timer) i ∙ t))
  | inr (_, gs, m, r) ↦ rw r (inl i)
]
erase_timer-Has a (e ∷ es) fs g q n (inr i) = elim (erase_timer_inv a e es fs q) [
  | inl (t, r) ↦ rw (← r) i
  | inr (_, gs, m, r) ↦ rw r (inr (erase_timer-Has a es gs g m n i))
]

pub erase_timer-none : (a : ℕ) (es : List Entry) → erase_timer a es ≡ none → Fresh a es
unfolding erase_timer
erase_timer-none a [] q = tt
erase_timer-none a (e ∷ es) q = elim (Bool-cases (e.timer == a)) [
  | inl t ↦ absurd (ground arith)
  | inr n ↦ elim (Option-cases (erase_timer a es)) [
    | inl m ↦ (ground arith, erase_timer-none a es m)
    | inr (gs, m) ↦ absurd (ground arith)
  ]
]
