-- ===== src/Connector/Events.antt =====
-- What the loop runs, event by event.
use agora_im.Shared.{
  ℕ, suc, ◌≡◌, ◌⊎◌, refl, Bool, true, false, Option, some, ◌==◌, if◌then◌else◌, Bool-cases, inl,
  inr, arith,
}
use agora_im.Connector.{
  Connector, Event, wants, starts, stops, writes, errors, resets_channel, step, is_connecting,
  is_disconnected, start_in_loop, connect_to, stop_in_loop, handle_write, handle_error,
  reset_channel, close,
}
use agora_im.Connector.Owned.{
  IsSound, Goes, owned, idle, unowned, wanted, start_free, torn, without_only, retried-Goes,
  established-IsSound, connect_to-Goes,
}

-- The conditions under which an event finds the connector in order. A new attempt starts when no
-- `resetChannel` waits in the queue, and an error comes while the connection is still wanted.
abbrev pub Allowed : Event → Connector → Type 0
Allowed (wants b) c = Unit {0}
Allowed (starts fd answer) c = c.resets ≡ 0
Allowed stops c = Unit {0}
Allowed (writes error) c = (error ≡ 0) ⊎ (c.connect ≡ true)
Allowed errors c = c.connect ≡ true
Allowed resets_channel c = is_connecting c.state ≡ false

pub start-Goes :
    (c : Connector) (fd : ℕ) (answer : Option ℕ)
    → IsSound c
    → c.resets ≡ 0
    → Goes (start_in_loop fd answer c)
unfolding start_in_loop
start-Goes c fd answer s r = elim (Bool-cases (is_disconnected c.state)) [
  | inl h ↦ rw h (attempt (start_free c.state h) c.connect refl)
  | inr h ↦ rw h (c, refl, s)
]
  where
    attempt :
        is_connecting c.state ≡ false
        → (b : Bool) → c.connect ≡ b
        → Goes (if b then connect_to fd answer c else some c)
    attempt h true w =
        connect_to-Goes c fd answer w (idle c.state c h s.owns) r s.at_least s.at_most
    attempt h false w = (c, refl, s)

stop-Goes : (c : Connector) → IsSound c → Goes (stop_in_loop c)
unfolding stop_in_loop
stop-Goes c s = elim (Bool-cases (is_connecting c.state)) [
  | inl h ↦
      let (fd, e, o, r) = owned c.state c h s.owns in
      rw (h, torn c fd e)
        (
          _,
          refl,
          record {
            owns = without_only fd c.open_fds o;
            at_least = s.at_least;
            at_most = s.at_most;
          },
        )
  | inr h ↦ rw h (c, refl, s)
]

error-Goes : (c : Connector) → IsSound c → c.connect ≡ true → Goes (handle_error c)
unfolding handle_error
error-Goes c s w = elim (Bool-cases (is_connecting c.state)) [
  | inl h ↦
      let (fd, e, o, r) = owned c.state c h s.owns in
      rw (h, torn c fd e)
        (retried-Goes (close fd (record c { resets = suc c.resets })) w
          (without_only fd c.open_fds o) s.at_least s.at_most)
  | inr h ↦ rw h (c, refl, s)
]

write-Goes :
    (c : Connector) (error : ℕ)
    → IsSound c
    → (error ≡ 0) ⊎ (c.connect ≡ true)
    → Goes (handle_write error c)
unfolding handle_write
write-Goes c error s a = elim (Bool-cases (is_connecting c.state)) [
  | inl h ↦
      let (fd, e, o, r) = owned c.state c h s.owns in
      elim (Bool-cases (error == 0)) [
        | inl z ↦
            rw (h, torn c fd e, z)
              (_, refl, established-IsSound (record c { resets = suc c.resets }) fd o)
        | inr z ↦
            let w : c.connect ≡ true = ground arith in
            rw (h, torn c fd e, z)
              (retried-Goes (close fd (record c { resets = suc c.resets })) w
                (without_only fd c.open_fds o) s.at_least s.at_most)
      ]
  | inr h ↦ rw h (c, refl, s)
]

-- Every event that is allowed fails no assertion and uses no null pointer. It keeps the
-- invariant: one descriptor is open while the connector is connecting, the channel's, and none
-- otherwise, so that each descriptor made is closed or handed over; the delay stays between half
-- a second and thirty seconds. An attempt is allowed when no `resetChannel` waits, a failure
-- while the connection is wanted, and `resetChannel` when the connector is not connecting.
pub step-Goes : (e : Event) (c : Connector) → IsSound c → Allowed e c → Goes (step e c)
unfolding step reset_channel
step-Goes (wants b) c s a = (
  record c { connect = b },
  refl,
  record { owns = wanted c.state c b s.owns; at_least = s.at_least; at_most = s.at_most },
)
step-Goes (starts fd answer) c s a = start-Goes c fd answer s a
step-Goes stops c s a = stop-Goes c s
step-Goes (writes error) c s a = write-Goes c error s a
step-Goes errors c s a = error-Goes c s a
step-Goes resets_channel c s a = (
  reset_channel c,
  refl,
  record {
    owns = unowned c.state c (reset_channel c) a s.owns refl;
    at_least = s.at_least;
    at_most = s.at_most;
  },
)
