-- ===== src/Connector/Owned.antt =====
-- Who owns the descriptor.
use agora_im.Shared.{
  ℕ, suc, ◌≤◌, ◌≡◌, ◌∙◌, ap, refl, Bool, true, false, Option, none, some, List, [], ◌∷◌,
  if◌then◌else◌, Bool-cases, inl, inr, arith,
}
use agora_im.Connector.{
  Connector, State, disconnected, connecting, connected, is_connecting, is_disconnected, connect_to,
  remove_and_reset_channel, established, retry, retry_if_wanted, start_watching, backoff,
  is_in_progress, close, without, hand_over,
}

-- The one descriptor that is open while the connector is connecting; none is open otherwise.
abbrev pub Owns : State → Connector → Type 0
Owns disconnected c = c.open_fds ≡ []
Owns connecting c = (fd : ℕ) × (c.channel ≡ some fd) × (c.open_fds ≡ fd ∷ []) × (c.resets ≡ 0)
Owns connected c = c.open_fds ≡ []

pub record IsSound (c : Connector) : Type 0 where
  pub owns : Owns c.state c
  pub at_least : 500 ≤ c.retry_delay
  pub at_most : c.retry_delay ≤ 30000

abbrev pub Goes : Option Connector → Type 0
Goes o = (c : Connector) × (o ≡ some c) × IsSound c

pub owned :
    (s : State) (c : Connector)
    → is_connecting s ≡ true
    → Owns s c
    → (fd : ℕ) × (c.channel ≡ some fd) × (c.open_fds ≡ fd ∷ []) × (c.resets ≡ 0)
owned disconnected c h o = absurd (cc)
owned connecting c h o = o
owned connected c h o = absurd (cc)

pub idle : (s : State) (c : Connector) → is_connecting s ≡ false → Owns s c → c.open_fds ≡ []
idle disconnected c h o = o
idle connecting c h o = absurd (cc)
idle connected c h o = o

pub unowned :
    (s : State) (c d : Connector)
    → is_connecting s ≡ false
    → Owns s c
    → d.open_fds ≡ c.open_fds
    → Owns s d
unowned disconnected c d h o e = e ∙ o
unowned connecting c d h o e = absurd (cc)
unowned connected c d h o e = e ∙ o

pub wanted : (s : State) (c : Connector) (b : Bool) → Owns s c → Owns s (record c { connect = b })
wanted disconnected c b o = o
wanted connecting c b o = o
wanted connected c b o = o

pub start_free : (s : State) → is_disconnected s ≡ true → is_connecting s ≡ false
start_free disconnected h = refl
start_free connecting h = absurd (cc)
start_free connected h = absurd (cc)

pub torn :
    (c : Connector) (fd : ℕ)
    → c.channel ≡ some fd
    → remove_and_reset_channel c ≡ some (fd, record c { resets = suc c.resets })
unfolding remove_and_reset_channel
torn c fd e = rw e

pub without_only : (fd : ℕ) (fds : List ℕ) → fds ≡ fd ∷ [] → without fd fds ≡ []
without_only fd fds e = rw e (ground arith)

backoff_bounds : (d : ℕ) → 500 ≤ d → d ≤ 30000 → (500 ≤ backoff d) × (backoff d ≤ 30000)
unfolding backoff
backoff_bounds d a b = ground arith

retry-IsSound :
    (c : Connector)
    → c.open_fds ≡ []
    → 500 ≤ c.retry_delay
    → c.retry_delay ≤ 30000
    → IsSound (retry c)
unfolding retry
retry-IsSound c o a b = elim (Bool-cases c.connect) [
  | inl h ↦
      let (a', b') = backoff_bounds c.retry_delay a b in
      rw h (record { owns = o; at_least = a'; at_most = b' })
  | inr h ↦ rw h (record { owns = o; at_least = a; at_most = b })
]

pub established-IsSound :
    (c : Connector) (fd : ℕ) → c.open_fds ≡ fd ∷ [] → IsSound (established fd c)
unfolding established
established-IsSound c fd o =
    let e = without_only fd c.open_fds o in
    let out : IsSound (close fd (record c { state = connected; retry_delay = 500 })) = record {
      owns = e;
      at_least = omega arith;
      at_most = omega arith;
    } in
    let given : IsSound (hand_over fd (record c { state = connected; retry_delay = 500 })) =
      record { owns = e; at_least = omega arith; at_most = omega arith } in
    ground (arith, out, given)

taken_branch : (b : Bool) (x y : Connector) → b ≡ true → (if b then x else y) ≡ x
taken_branch b x y e = rw e

pub retried-Goes :
    (c : Connector)
    → c.connect ≡ true
    → c.open_fds ≡ []
    → 500 ≤ c.retry_delay
    → c.retry_delay ≤ 30000
    → Goes (some (retry_if_wanted c))
retried-Goes c w o a b =
    (retry c, ap some (taken_branch c.connect (retry c) c w), retry-IsSound c o a b)

watching-Goes :
    (c : Connector) (fd : ℕ)
    → c.channel ≡ none
    → c.open_fds ≡ fd ∷ []
    → c.resets ≡ 0
    → 500 ≤ c.retry_delay
    → c.retry_delay ≤ 30000
    → Goes (start_watching fd c)
unfolding start_watching
watching-Goes c fd n o r a b = (
  record c { state = connecting; channel = some fd },
  rw n,
  record { owns = (fd, refl, o, r); at_least = a; at_most = b },
)

pub connect_to-Goes :
    (c : Connector) (fd : ℕ) (answer : Option ℕ)
    → c.connect ≡ true
    → c.open_fds ≡ []
    → c.resets ≡ 0
    → 500 ≤ c.retry_delay
    → c.retry_delay ≤ 30000
    → Goes (connect_to fd answer c)
unfolding connect_to
connect_to-Goes c fd none w o r a b =
    watching-Goes _ fd refl (ap (λ l. fd ∷ l) o) r (omega arith) (omega arith)
connect_to-Goes c fd (some errno) w o r a b =
    let c' : Connector = record c { channel = none; open_fds = fd ∷ c.open_fds } in
    let one = ap (λ l. fd ∷ l) o in
    elim (Bool-cases (is_in_progress errno)) [
      | inl h ↦ rw h (watching-Goes c' fd refl one r a b)
      | inr h ↦ rw h (retried-Goes (close fd c') w (without_only fd _ one) a b)
    ]
