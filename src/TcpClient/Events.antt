-- ===== src/TcpClient/Events.antt =====
-- The client and its connector, event by event.
use agora_im.Shared.{
  ℕ, ◌≡◌, refl, sym, Bool, true, false, ◌&&◌, Option, none, some, List, [], ◌∷◌, ◌++◌, ◌==◌,
  Bool-cases, Option-cases, inl, inr, arith, length, ==_iff, subst,
}
use agora_im.Connector
use agora_im.Connector.{Connector, is_connecting, start_in_loop, restart}
use agora_im.Connector.Owned
use agora_im.Connector.Owned.{Goes, idle, wanted}
use agora_im.Connector.Events.{start-Goes, step-Goes}
use agora_im.Connector.Events
use agora_im.Connector.Handed.{connected_not}
use agora_im.TcpClient.{
  TcpClient, destroys, connect, disconnect, stop, new_connection, is_it, remove_connection,
  called_back, run_connector, Event, connects, disconnects, stops, sets_retry, connector_runs,
  removes, step,
}
use agora_im.TcpClient.Lifetime.{IsSound, Keeps, step-Keeps}

-- The client and its connector are in order.
pub record IsWhole (cl : TcpClient) : Type 0 where
  pub client : IsSound cl
  pub connector : Owned.IsSound cl.connector

-- When an event may come: an attempt when no `resetChannel` waits, a removal for the connection that the
-- client holds, and an event of the connector when the connector allows it.
abbrev pub Allowed : Event → TcpClient → Type 0
Allowed (connects fd answer) cl = cl.connector.resets ≡ 0
Allowed disconnects cl = Unit {0}
Allowed stops cl = Unit {0}
Allowed (sets_retry b) cl = Unit {0}
Allowed (connector_runs e) cl = Events.Allowed e cl.connector
Allowed (removes fd next answer) cl = (cl.connection ≡ some fd) × (cl.connector.resets ≡ 0)

-- The call succeeds, with a connector in order.
abbrev Connects : Option TcpClient → Type 0
Connects o = (cl : TcpClient) × (o ≡ some cl) × Owned.IsSound cl.connector

wanted-IsSound :
    (c : Connector) (b : Bool) → Owned.IsSound c → Owned.IsSound (record c { connect = b })
wanted-IsSound c b s = record {
  owns = wanted c.state c b s.owns;
  at_least = s.at_least;
  at_most = s.at_most;
}

connect-Connects :
    (fd : ℕ) (answer : Option ℕ) (cl : TcpClient)
    → Owned.IsSound cl.connector
    → cl.connector.resets ≡ 0
    → Connects (connect fd answer cl)
unfolding connect
connect-Connects fd answer cl s r =
    let (c, e, t) =
      start-Goes (record cl.connector { connect = true }) fd answer
        (wanted-IsSound cl.connector true s) r in
    (record cl { connect = true; connector = c }, rw e refl, t)

restart-Goes :
    (next : ℕ) (answer : Option ℕ) (c : Connector)
    → is_connecting c.state ≡ false
    → Owned.IsSound c
    → c.resets ≡ 0
    → Goes (restart next answer c)
unfolding restart
restart-Goes next answer c h s r =
    start-Goes (record c { state = Connector.disconnected; retry_delay = 500; connect = true }) next
      answer
      (record { owns = idle c.state c h s.owns; at_least = omega arith; at_most = omega arith }) r

pub held_it : (o : Option ℕ) (fd : ℕ) → o ≡ some fd → is_it o fd ≡ true
unfolding is_it
held_it none fd h = absurd (cc)
held_it (some x) fd h = (==_iff x fd).1 (cc)

remove-Connects :
    (fd next : ℕ) (answer : Option ℕ) (cl : TcpClient)
    → IsWhole cl
    → cl.connection ≡ some fd
    → cl.connector.resets ≡ 0
    → Connects (remove_connection fd next answer cl)
unfolding remove_connection
remove-Connects fd next answer cl s h r = elim (Bool-cases (cl.retry && cl.connect)) [
  | inl w ↦
      let (c, e, t) =
        restart-Goes next answer cl.connector
          ((connected_not cl.connector.state (s.client.up fd h)).0) s.connector r in
      (
        record cl { connection = none; tasks = cl.tasks ++ destroys fd ∷ []; connector = c },
        rw (held_it cl.connection fd h, w, e) refl,
        t,
      )
  | inr w ↦ (
    record cl { connection = none; tasks = cl.tasks ++ destroys fd ∷ [] },
    rw (held_it cl.connection fd h, w) refl,
    s.connector,
  )
]

connector-called_back :
    (n : ℕ) (fds : List ℕ) (cl : TcpClient) → (called_back n fds cl).connector ≡ cl.connector
unfolding called_back new_connection
connector-called_back n [] cl = refl
connector-called_back n (fd ∷ fds) cl = elim (Bool-cases (length fds == n)) [
  | inl h ↦ rw h refl
  | inr h ↦ rw h refl
]

run-Connects :
    (e : Connector.Event) (cl : TcpClient)
    → Owned.IsSound cl.connector
    → Events.Allowed e cl.connector
    → Connects (run_connector e cl)
unfolding run_connector
run-Connects e cl s a =
    let (c, q, t) = step-Goes e cl.connector s a in
    (
      called_back (length cl.connector.handed) c.handed (record cl { connector = c }),
      rw q refl,
      subst Owned.IsSound (sym (connector-called_back _ c.handed (record cl { connector = c }))) t,
    )

disconnect-Connects :
    (cl : TcpClient) → Owned.IsSound cl.connector → Owned.IsSound (disconnect cl).connector
unfolding disconnect
disconnect-Connects cl s = elim (Option-cases cl.connection) [
  | inl h ↦ rw h s
  | inr (fd, h) ↦ rw h s
]

step-Connects : (e : Event) (cl : TcpClient) → IsWhole cl → Allowed e cl → Connects (step e cl)
unfolding step stop
step-Connects (connects fd answer) cl s a = connect-Connects fd answer cl s.connector a
step-Connects disconnects cl s a = (disconnect cl, refl, disconnect-Connects cl s.connector)
step-Connects stops cl s a = (_, refl, wanted-IsSound cl.connector false s.connector)
step-Connects (sets_retry b) cl s a = (_, refl, s.connector)
step-Connects (connector_runs e) cl s a = run-Connects e cl s.connector a
step-Connects (removes fd next answer) cl s a = remove-Connects fd next answer cl s a.0 a.1

-- Every event that is allowed fails no assertion of the client or its connector and keeps the
-- invariants of both: the client's connections are established and destroyed in turn, each destroyed
-- before the next is established and shut only while it is alive; the one that is alive is the one
-- that the client holds; and while it holds one the connector is connected, so that no other can
-- come. An attempt is allowed when no `resetChannel` waits, a removal for the connection held, and an
-- event of the connector under the connector's own conditions.
pub step-IsWhole :
    (e : Event) (cl : TcpClient)
    → IsWhole cl
    → Allowed e cl
    → (cl' : TcpClient) × (step e cl ≡ some cl') × IsWhole cl'
step-IsWhole e cl s a =
    let (cl', q, t) = step-Connects e cl s a in
    (cl', q, record { client = subst Keeps q (step-Keeps e cl s.client); connector = t })
