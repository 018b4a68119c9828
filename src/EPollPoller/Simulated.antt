-- ===== src/EPollPoller/Simulated.antt =====
-- An epoll set that keeps the manual's laws.
use agora_im.Shared.{
  ℕ, ◌≡◌, ◌≢◌, refl, Bool, true, false, Option, none, some, ◌==◌, if◌then◌else◌, arith,
}
use agora_im.Channel.{Events}
use agora_im.EPollPoller.{Epoll, Operation, ctl_add, ctl_mod, ctl_del, Expects, left_by}

abbrev pub Set : Type 0
Set = ℕ → Option Events

abbrev pub put : Set → ℕ → Option Events → Set
put s fd w other = if other == fd then w else s other

-- An addition wants no entry, the other operations want one.
unfoldable pub accepts : Operation → Option Events → Bool
accepts ctl_add none = true
accepts ctl_add (some e) = false
accepts ctl_mod none = false
accepts ctl_mod (some e) = true
accepts ctl_del none = false
accepts ctl_del (some e) = true

accepts_expected : (op : Operation) (w : Option Events) → Expects op w → accepts op w ≡ true
unfolding accepts
accepts_expected ctl_add w h = rw h
accepts_expected ctl_mod w (e, h) = rw h
accepts_expected ctl_del w (e, h) = rw h

abbrev pub ctl : Operation → ℕ → Events → Set → Bool × Set
ctl op fd e s = if accepts op (s fd) then (true, put s fd (left_by op e)) else (false, s)

put_same : (s : Set) (fd : ℕ) (w : Option Events) → put s fd w fd ≡ w
put_same s fd w = ground arith

pub ctl_succeeds :
    (op : Operation) (fd : ℕ) (e : Events) (s : Set)
    → Expects op (s fd)
    → ((ctl op fd e s).0 ≡ true) × ((ctl op fd e s).1 fd ≡ left_by op e)
ctl_succeeds op fd e s h = rw (accepts_expected op (s fd) h) (refl, put_same s fd (left_by op e))

pub ctl_others :
    (op : Operation) (fd : ℕ) (e : Events) (s : Set) (other : ℕ)
    → other ≢ fd
    → (ctl op fd e s).1 other ≡ s other
ctl_others op fd e s other n = ground arith

abbrev pub epoll : Epoll
epoll = record {
  State = Set;
  watched = λ s. s;
  epoll_ctl = ctl;
  succeeds = ctl_succeeds;
  others = ctl_others;
}
