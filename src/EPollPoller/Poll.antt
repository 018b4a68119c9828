-- ===== src/EPollPoller/Poll.antt =====
-- src/net/epoll_poller.cpp and src/net/poller.cpp: `poll`, and what it tells the channels.
--
-- A channel stands at an address. What `epoll_wait` answers is an argument: an `errno`, or the
-- addresses and events that it wrote to the list of events, whose length is `size_t`.
use agora_im.Shared.{
  ◌^◌, ℕ, ◌*◌, ◌%◌, ◌≤◌, ◌<◌, ◌≡◌, ◌≢◌, ◌∙◌, ap, refl, sym, Bool, false, none, some, List, [], ◌∷◌,
  ◌++◌, append-nil, append_assoc, ◌==◌, if◌then◌else◌, arith, length, Free, ==_iff,
}
use agora_im.Buffer.{Answer, failed, moved}
use agora_im.Channel.{Channel, Events}
use agora_im.EPollPoller.{Epoll, Poller}

abbrev pub Channels : Type 0
Channels = ℕ → Channel

abbrev pub init_event_list_size : ℕ
init_event_list_size = 16

-- `hasChannel`.
unfoldable pub has_channel : {k : Epoll} → ℕ → Channel → Poller k → Bool
has_channel address c p = elim (p.channels c.fd) [ none ↦ false | some a ↦ a == address ]

-- `setRevents` of the channel at an address.
unfoldable pub set_revents : ℕ → Events → Channels → Channels
set_revents a e h b = if b == a then record (h b) { revents = e } else h b

-- `fillActiveChannels`, with the list of active channels.
unfoldable pub fill_active_channels : List (ℕ × Events) → Channels × List ℕ → Channels × List ℕ
fill_active_channels [] s = s
fill_active_channels ((a, e) ∷ es) (h, active) =
    fill_active_channels es (set_revents a e h, active ++ a ∷ [])

-- The length of the event list after a call that found this many.
unfoldable pub grown : (size found : ℕ) → ℕ
grown size found = if found == size then size * 2 % 2 ^ 64 else size

-- `poll`, with the length of the event list.
unfoldable pub poll : Answer (List (ℕ × Events)) → ℕ → Channels × List ℕ → ℕ × (Channels × List ℕ)
poll (failed errno) size s = (size, s)
poll (moved []) size s = (size, s)
poll (moved (e ∷ es)) size s = (grown size (length (e ∷ es)), fill_active_channels (e ∷ es) s)

abbrev pub addresses : List (ℕ × Events) → List ℕ
addresses [] = []
addresses ((a, e) ∷ es) = a ∷ addresses es

-- No address is reported twice.
abbrev pub Distinct : List (ℕ × Events) → Type 0
Distinct [] = Unit {0}
Distinct ((a, e) ∷ es) = Free a (addresses es) × Distinct es

-- The channels that were reported have their events, and are otherwise as they were.
abbrev pub Told : List (ℕ × Events) → (before after : Channels) → Type 0
Told [] before after = Unit {0}
Told ((a, e) ∷ es) before after =
    (after a ≡ record (before a) { revents = e }) × Told es before after

active-fill :
    (es : List (ℕ × Events)) (h : Channels) (active : List ℕ)
    → (fill_active_channels es (h, active)).1 ≡ active ++ addresses es
unfolding fill_active_channels
active-fill [] h active = sym (append-nil active)
active-fill ((a, e) ∷ es) h active =
    active-fill es (set_revents a e h) (active ++ a ∷ [])
    ∙ append_assoc active (a ∷ []) (addresses es)

set_self : (a : ℕ) (e : Events) (h : Channels) → set_revents a e h a ≡ record (h a) { revents = e }
unfolding set_revents
set_self a e h = rw ((==_iff a a).1 refl) refl

set_other : (a b : ℕ) (e : Events) (h : Channels) → a ≢ b → set_revents a e h b ≡ h b
unfolding set_revents
set_other a b e h n = let f : (b == a) ≡ false = ground arith in rw f refl

unreported :
    (es : List (ℕ × Events)) (h : Channels) (active : List ℕ) (b : ℕ)
    → Free b (addresses es)
    → (fill_active_channels es (h, active)).0 b ≡ h b
unfolding fill_active_channels
unreported [] h active b f = refl
unreported ((a, e) ∷ es) h active b (n, f) =
    unreported es (set_revents a e h) (active ++ a ∷ []) b f ∙ set_other a b e h n

-- What was told before does not matter to channels that were not.
set_revents-Told :
    (es : List (ℕ × Events)) (a : ℕ) (e : Events) (h after : Channels)
    → Free a (addresses es)
    → Told es (set_revents a e h) after
    → Told es h after
set_revents-Told [] a e h after f t = tt
set_revents-Told ((b, d) ∷ es) a e h after (n, f) (t, u) = (
  t ∙ ap (λ (c : Channel). record c { revents = d }) (set_other a b e h (λ q. n (sym q))),
  set_revents-Told es a e h after f u,
)

fill-Told :
    (es : List (ℕ × Events)) (h : Channels) (active : List ℕ)
    → Distinct es
    → Told es h (fill_active_channels es (h, active)).0
unfolding fill_active_channels
fill-Told [] h active d = tt
fill-Told ((a, e) ∷ es) h active (f, d) =
    let s = set_revents a e h in
    let rest = active ++ a ∷ [] in
    (
      unreported es s rest a f ∙ set_self a e h,
      set_revents-Told es a e h (fill_active_channels es (s, rest)).0 f (fill-Told es s rest d),
    )

room : (size found : ℕ) → found ≤ size → 0 < size → size < 2 ^ 31 → found < grown size found
unfolding grown
room size found h p small = ground arith

-- `poll` that finds channels, each once and no more than fit in its list, makes just those active, in
-- order, sets the events of each of them and changes nothing else in any channel; and its list is then
-- longer than what it found.
pub poll-moved :
    (es : List (ℕ × Events)) (size : ℕ) (h : Channels)
    → Distinct es
    → length es ≤ size
    → 0 < size
    → size < 2 ^ 31
    → ((poll (moved es) size (h, [])).1.1 ≡ addresses es)
      × Told es h (poll (moved es) size (h, [])).1.0
      × ((b : ℕ) → Free b (addresses es) → (poll (moved es) size (h, [])).1.0 b ≡ h b)
      × (length es < (poll (moved es) size (h, [])).0)
unfolding poll
poll-moved [] size h d fits p small = (refl, tt, (λ b f. refl), p)
poll-moved (e ∷ es) size h d fits p small = (
  active-fill (e ∷ es) h [],
  fill-Told (e ∷ es) h [] d,
  (λ b f. unreported (e ∷ es) h [] b f),
  room size (length (e ∷ es)) fits p small,
)
