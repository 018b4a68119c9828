-- ===== src/Connector/Handed.antt =====
-- When a descriptor is handed over.
use agora_im.Shared.{
  ℕ, suc, ◌≡◌, ◌∙◌, ◌⊎◌, ap, refl, Bool, true, false, Option, none, some, ◌==◌, if◌then◌else◌,
  Bool-cases, Option-cases, inl, inr,
}
use agora_im.Connector.Owned.{torn}
use agora_im.Connector.{
  Connector, State, disconnected, connecting, connected, Event, wants, starts, stops, writes,
  errors, resets_channel, step, is_connecting, is_disconnected, start_in_loop, connect_to,
  start_watching, is_in_progress, retry, retry_if_wanted, stop_in_loop, handle_write, handle_error,
  reset_channel, remove_and_reset_channel, established, close,
}

abbrev pub is_connected : State → Bool
is_connected disconnected = false
is_connected connecting = false
is_connected connected = true

pub connected_not :
    (s : State) → is_connected s ≡ true → (is_connecting s ≡ false) × (is_disconnected s ≡ false)
connected_not disconnected h = absurd (cc)
connected_not connecting h = absurd (cc)
connected_not connected h = (refl, refl)

-- What a connected connector stays.
abbrev pub Stays : Connector → Option Connector → Type 0
Stays c none = Unit {0}
Stays c (some d) = (is_connected d.state ≡ true) × (d.handed ≡ c.handed)

pub start_in_loop-Stays :
    (fd : ℕ) (answer : Option ℕ) (c : Connector)
    → is_connected c.state ≡ true
    → Stays c (start_in_loop fd answer c)
unfolding start_in_loop
start_in_loop-Stays fd answer c h = rw ((connected_not c.state h).1) (h, refl)

-- A connector that is connected stays so, and hands nothing over.
pub step-Stays : (e : Event) (c : Connector) → is_connected c.state ≡ true → Stays c (step e c)
unfolding step start_in_loop stop_in_loop handle_write handle_error reset_channel
step-Stays (wants b) c h = (h, refl)
step-Stays (starts fd answer) c h = start_in_loop-Stays fd answer c h
step-Stays stops c h = rw ((connected_not c.state h).0) (h, refl)
step-Stays (writes error) c h = rw ((connected_not c.state h).0) (h, refl)
step-Stays errors c h = rw ((connected_not c.state h).0) (h, refl)
step-Stays resets_channel c h = (h, refl)

abbrev pub Hands : Connector → Option Connector → Type 0
Hands c none = Unit {0}
Hands c (some d) = (is_connected d.state ≡ true) ⊎ (d.handed ≡ c.handed)

handed-retry_if_wanted : (c : Connector) → (retry_if_wanted c).handed ≡ c.handed
unfolding retry
handed-retry_if_wanted c = elim (Bool-cases c.connect) [ inl h ↦ rw h refl | inr h ↦ rw h refl ]

start_watching-Hands :
    (fd : ℕ) (c d : Connector) → c.handed ≡ d.handed → Hands d (start_watching fd c)
unfolding start_watching
start_watching-Hands fd c d e = elim (Option-cases c.channel) [
  | inl h ↦ rw h (inr e)
  | inr (old, h) ↦ rw h tt
]

connect_to-Hands : (fd : ℕ) (answer : Option ℕ) (c : Connector) → Hands c (connect_to fd answer c)
unfolding connect_to
connect_to-Hands fd none c = start_watching-Hands fd _ c refl
connect_to-Hands fd (some errno) c = elim (Bool-cases (is_in_progress errno)) [
  | inl h ↦ rw h (start_watching-Hands fd _ c refl)
  | inr h ↦ rw h (inr (handed-retry_if_wanted _))
]

pub start_in_loop-Hands :
    (fd : ℕ) (answer : Option ℕ) (c : Connector) → Hands c (start_in_loop fd answer c)
unfolding start_in_loop
start_in_loop-Hands fd answer c = elim (Bool-cases (is_disconnected c.state)) [
  | inl h ↦ rw h (wanted c.connect)
  | inr h ↦ rw h (inr refl)
]
  where
    wanted : (b : Bool) → Hands c (if b then connect_to fd answer c else some c)
    wanted true = connect_to-Hands fd answer c
    wanted false = inr refl

state-established : (fd : ℕ) (c : Connector) → (established fd c).state ≡ connected
unfolding established
state-established fd c = elim (Bool-cases c.connect) [
  | inl h ↦ elim (Bool-cases c.callback) [ inl k ↦ rw (h, k) refl | inr k ↦ rw (h, k) refl ]
  | inr h ↦ rw h refl
]

established-Hands :
    (c : Connector) (fd : ℕ) (d : Connector) (error : ℕ)
    → d.handed ≡ c.handed
    → Hands c (some (if error == 0 then established fd d else retry_if_wanted (close fd d)))
established-Hands c fd d error e = elim (Bool-cases (error == 0)) [
  | inl h ↦ rw h (inl (ap is_connected (state-established fd d)))
  | inr h ↦ rw h (inr (handed-retry_if_wanted (close fd d) ∙ e))
]

untorn : (c : Connector) → c.channel ≡ none → remove_and_reset_channel c ≡ none
unfolding remove_and_reset_channel
untorn c e = rw e refl

write-Hands : (error : ℕ) (c : Connector) → Hands c (handle_write error c)
unfolding handle_write
write-Hands error c = elim (Bool-cases (is_connecting c.state)) [
  | inl h ↦ elim (Option-cases c.channel) [
    | inl e ↦ rw (h, untorn c e) tt
    | inr (fd, e) ↦
        rw (h, torn c fd e) (established-Hands c fd (record c { resets = suc c.resets }) error refl)
  ]
  | inr h ↦ rw h (inr refl)
]

error-Hands : (c : Connector) → Hands c (handle_error c)
unfolding handle_error
error-Hands c = elim (Bool-cases (is_connecting c.state)) [
  | inl h ↦ elim (Option-cases c.channel) [
    | inl e ↦ rw (h, untorn c e) tt
    | inr (fd, e) ↦ rw (h, torn c fd e) (inr (handed-retry_if_wanted _))
  ]
  | inr h ↦ rw h (inr refl)
]

stop-Hands : (c : Connector) → Hands c (stop_in_loop c)
unfolding stop_in_loop
stop-Hands c = elim (Bool-cases (is_connecting c.state)) [
  | inl h ↦ elim (Option-cases c.channel) [
    | inl e ↦ rw (h, untorn c e) tt
    | inr (fd, e) ↦ rw (h, torn c fd e) (inr refl)
  ]
  | inr h ↦ rw h (inr refl)
]

-- It hands a descriptor over only when it is connected afterwards.
pub step-Hands : (e : Event) (c : Connector) → Hands c (step e c)
unfolding step reset_channel
step-Hands (wants b) c = inr refl
step-Hands (starts fd answer) c = start_in_loop-Hands fd answer c
step-Hands stops c = stop-Hands c
step-Hands (writes error) c = write-Hands error c
step-Hands errors c = error-Hands c
step-Hands resets_channel c = inr refl
