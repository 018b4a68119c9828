-- ===== src/TcpClient/Reconnect.antt =====
-- `connect` after a connection was lost.
use agora_im.Shared.{ℕ, ◌≡◌, ap, refl, Bool, true, false, ◌&&◌, Option, none, some, [], ◌∷◌, ◌++◌}
use agora_im.Shared.Assertions.{◌>>=◌}
use agora_im.Connector.{Connector, start_in_loop}
use agora_im.Connector.Handed.{is_connected, connected_not}
use agora_im.TcpClient.{TcpClient, connect, remove_connection, destroys}
use agora_im.TcpClient.Lifetime.{IsSound}
use agora_im.TcpClient.Events.{held_it}

no_attempt :
    (fd : ℕ) (answer : Option ℕ) (c : Connector)
    → is_connected c.state ≡ true
    → start_in_loop fd answer c ≡ some c
unfolding start_in_loop
no_attempt fd answer c h = rw ((connected_not c.state h).1) refl

connect_idle :
    (fd : ℕ) (answer : Option ℕ) (cl : TcpClient)
    → is_connected cl.connector.state ≡ true
    → connect fd answer cl
      ≡ some (record cl { connect = true; connector = record cl.connector { connect = true } })
unfolding connect
connect_idle fd answer cl h =
    rw (no_attempt fd answer (record cl.connector { connect = true }) h) refl

-- When a client that keeps the invariant and does not retry has lost its connection, `connect` makes
-- no attempt, whatever `socket` and `connect` of the system would answer: it sets the two flags, and
-- the client still has no connection, and its connector no new descriptor.
pub connect-remove_connection :
    (fd next other : ℕ) (answer answer' : Option ℕ) (cl : TcpClient)
    → IsSound cl
    → cl.connection ≡ some fd
    → cl.retry ≡ false
    → (cl' : TcpClient) × ((remove_connection fd next answer cl >>= λ lost.
          connect other answer' lost)
        ≡ some cl')
      × (cl'.connection ≡ none)
      × (cl'.connector ≡ record cl.connector { connect = true })
unfolding remove_connection
connect-remove_connection fd next other answer answer' cl s h f =
    let lost : TcpClient = record cl { connection = none; tasks = cl.tasks ++ destroys fd ∷ [] } in
    (
      record lost { connect = true; connector = record lost.connector { connect = true } },
      rw (held_it cl.connection fd h, ap (λ (b : Bool). b && cl.connect) f)
          (connect_idle other answer' lost (s.up fd h)),
      refl,
      refl,
    )
