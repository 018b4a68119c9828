-- ===== src/TcpClient.antt =====
-- include/agora/net/tcp_client.h and src/net/tcp_client.cpp: a client over its connector.
--
-- A connection stands for its descriptor; what it does is modelled in TcpConnection. What the client
-- asks of its connections is a list, in order. All of it runs in the loop's thread, so that `start` of
-- the connector tries at once. `none` is a failed assertion, or a null pointer that is used.
pub mod Lifetime
pub mod Events
pub mod Reconnect
mod Examples
use agora_im.Shared.{
  ℕ, zero, suc, ◌+◌, ◌-◌, ◌*◌, ◌/◌, ◌%◌, ◌≤◌, ◌<◌, ◌≡◌, ◌≢◌, ◌∙◌, ◌⊎◌, ◌↔◌, ap, refl, sym, Bool,
  true, false, not, ◌&&◌, ◌||◌, Option, none, some, List, [], ◌∷◌, ◌++◌, append-nil, append_assoc,
  ltb, leb, ◌==◌, if◌then◌else◌, Bool-cases, Option-cases, inl, inr, arith, Bytes, codes, length,
  take, drop, length-append, eq_bytes, eq_bytes_iff, Free, ==_iff,
}
use agora_im.Shared.Assertions.{◌>>=◌}
use agora_im.Connector.{Connector, start_in_loop, restart}
use agora_im.Connector

-- `connectEstablished`, `shutdown` and the queued `connectDestroyed` of a connection.
pub data Task : Type 0 where
  establishes : (fd : ℕ) → Task
  shuts : (fd : ℕ) → Task
  destroys : (fd : ℕ) → Task

pub record TcpClient : Type 0 where
  pub connector : Connector
  pub connection : Option ℕ
  pub retry : Bool
  pub connect : Bool
  pub tasks : List Task

unfoldable pub new : TcpClient
new = record {
  connector = Connector.new true;
  connection = none;
  retry = false;
  connect = false;
  tasks = [];
}

abbrev ask : Task → TcpClient → TcpClient
ask t cl = record cl { tasks = cl.tasks ++ t ∷ [] }

-- `connect`, with the descriptor and the answer of the attempt that the connector may make.
unfoldable pub connect : (fd : ℕ) (answer : Option ℕ) → TcpClient → Option TcpClient
connect fd answer cl = do
  c ← start_in_loop fd answer (record cl.connector { connect = true })
  some (record cl { connect = true; connector = c })

unfoldable pub disconnect : TcpClient → TcpClient
disconnect cl = elim cl.connection [
  | none ↦ record cl { connect = false }
  | some fd ↦ ask (shuts fd) (record cl { connect = false })
]

-- `stop`, up to the `stopInLoop` that the connector queues.
unfoldable pub stop : TcpClient → TcpClient
stop cl = record cl { connect = false; connector = record cl.connector { connect = false } }

unfoldable pub new_connection : ℕ → TcpClient → TcpClient
new_connection fd cl = ask (establishes fd) (record cl { connection = some fd })

unfoldable pub is_it : Option ℕ → ℕ → Bool
is_it none fd = false
is_it (some x) fd = x == fd

-- `removeConnection`, with the attempt that the connector may make.
unfoldable pub remove_connection :
    (fd : ℕ) → (next : ℕ) (answer : Option ℕ) → TcpClient → Option TcpClient
remove_connection fd next answer cl =
    if is_it cl.connection fd
    then (let cl' = ask (destroys fd) (record cl { connection = none }) in
        if cl.retry && cl.connect
        then (do c ← restart next answer cl.connector; some (record cl' { connector = c }))
        else some cl')
    else none

-- The connector has called back if it has handed over a descriptor more.
unfoldable pub called_back : ℕ → List ℕ → TcpClient → TcpClient
called_back n [] cl = cl
called_back n (fd ∷ fds) cl = if length fds == n then new_connection fd cl else cl

-- The connector handles an event.
unfoldable pub run_connector : Connector.Event → TcpClient → Option TcpClient
run_connector e cl = do
  c ← Connector.step e cl.connector
  some (called_back (length cl.connector.handed) c.handed (record cl { connector = c }))

-- The destructor, up to the `stopInLoop` that the connector queues.
unfoldable pub destruct : TcpClient → TcpClient
destruct cl = elim cl.connection [
  | none ↦ record cl { connector = record cl.connector { connect = false } }
  | some fd ↦
      ask (destroys fd)
        (record cl { connection = none; connector = record cl.connector { connect = false } })
]

-- What happens to a client.
pub data Event : Type 0 where
  connects : (fd : ℕ) → (answer : Option ℕ) → Event
  disconnects stops : Event
  sets_retry : Bool → Event
  connector_runs : Connector.Event → Event
  removes : (fd next : ℕ) → (answer : Option ℕ) → Event

unfoldable pub step : Event → TcpClient → Option TcpClient
step (connects fd answer) cl = connect fd answer cl
step disconnects cl = some (disconnect cl)
step stops cl = some (stop cl)
step (sets_retry b) cl = some (record cl { retry = b })
step (connector_runs e) cl = run_connector e cl
step (removes fd next answer) cl = remove_connection fd next answer cl
