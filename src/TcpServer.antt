-- ===== src/TcpServer.antt =====
-- include/agora/net/tcp_server.h and src/net/tcp_server.cpp: a server and its connections.
--
-- A connection stands for its name, its loop, its descriptor and its peer; what it does is modelled in
-- TcpConnection. What the server asks of the loops of connections is a list, in order: each entry
-- has the loop to which the functor went. `std::to_string` and the start of a thread are arguments.
-- `none` is a failed assertion, or the overflow of the number of the next connection, which is an
-- `int`.
pub mod Live
pub mod Counts
pub mod Admit
pub mod Balance
pub mod Accepts
mod Examples
use agora_im.Shared.{
  ℕ, zero, suc, ◌+◌, ◌-◌, ◌*◌, ◌/◌, ◌%◌, ◌≤◌, ◌<◌, ◌≡◌, ◌≢◌, ◌∙◌, ◌⊎◌, ◌↔◌, ap, refl, sym, Bool,
  true, false, not, ◌&&◌, ◌||◌, Option, none, some, List, [], ◌∷◌, ◌++◌, append-nil, append_assoc,
  ltb, leb, ◌==◌, if◌then◌else◌, Bool-cases, Option-cases, inl, inr, arith, Bytes, codes, length,
  take, drop, length-append, eq_bytes, eq_bytes_iff, Free, ==_iff,
}
use agora_im.Shared.Assertions.{◌>>=◌}
use agora_im.Acceptor
use agora_im.Acceptor.{Acceptor}
use agora_im.EventLoopThreadPool
use agora_im.EventLoopThreadPool.{EventLoopThreadPool, get_next_loop}

pub record Connection : Type 0 where
  pub name : Bytes
  pub loop : ℕ
  pub fd : ℕ
  pub peer : ℕ

-- `connectEstablished` or `connectDestroyed` of a connection, queued on its loop or run there.
pub data Task : Type 0 where
  establishes : Connection → Task
  destroys : Connection → Task

-- The map from names to connections.
abbrev pub ConnectionMap : Type 0
ConnectionMap = List (Bytes × Connection)

-- `connections_[name] = conn`.
unfoldable pub assign : Bytes → Connection → ConnectionMap → ConnectionMap
assign name c [] = (name, c) ∷ []
assign name c ((n, d) ∷ m) =
    let rest = assign name c m in if eq_bytes n name then (name, c) ∷ m else (n, d) ∷ rest

unfoldable pub erase : Bytes → ConnectionMap → ConnectionMap
erase name [] = []
erase name ((n, d) ∷ m) = let rest = erase name m in if eq_bytes n name then rest else (n, d) ∷ rest

unfoldable pub find : Bytes → ConnectionMap → Option Connection
find name [] = none
find name ((n, d) ∷ m) = let rest = find name m in if eq_bytes n name then some d else rest

pub record TcpServer : Type 0 where
  pub name : Bytes
  pub started : Bool
  pub listening : Bool
  pub pool : EventLoopThreadPool
  pub next_conn_id : ℕ
  pub connections : ConnectionMap
  pub tasks : List (ℕ × Task)

unfoldable pub new : ℕ → Bytes → TcpServer
new loop name = record {
  name = name;
  started = false;
  listening = false;
  pool = EventLoopThreadPool.new loop name;
  next_conn_id = 1;
  connections = [];
  tasks = [];
}

unfoldable pub set_thread_num : ℕ → TcpServer → Option TcpServer
set_thread_num n s =
    if s.started
    then none
    else some (record s { pool = EventLoopThreadPool.set_thread_num n s.pool })

-- `Acceptor::listen`, which may be called once.
unfoldable pub listen : TcpServer → Option TcpServer
listen s = if s.listening then none else some (record s { listening = true })

-- The loop runs a functor, or queues it.
unfoldable pub run_in_loop : ℕ → Task → TcpServer → TcpServer
run_in_loop loop t s = record s { tasks = s.tasks ++ (loop, t) ∷ [] }

unfoldable pub remove_connection_in_loop : Connection → TcpServer → TcpServer
remove_connection_in_loop c s =
    run_in_loop c.loop (destroys c) (record s { connections = erase c.name s.connections })

-- The destructor, for the connections of the map in order.
unfoldable pub destroy_all : ConnectionMap → TcpServer → TcpServer
destroy_all [] s = s
destroy_all ((n, c) ∷ m) s = destroy_all m (run_in_loop c.loop (destroys c) s)

unfoldable pub destruct : TcpServer → TcpServer
destruct s = destroy_all s.connections (record s { connections = [] })

-- The new connection in the map and on its loop.
unfoldable pub admit : Connection → TcpServer → TcpServer
admit c s =
    run_in_loop c.loop (establishes c)
      (record s { connections = assign c.name c s.connections; next_conn_id = s.next_conn_id + 1 })

module _ (to_string : ℕ → Bytes) where
  unfoldable pub start : (start_loop : Bytes → ℕ) → TcpServer → Option TcpServer
  start start_loop s = if s.started then some s else (do
    pool ← EventLoopThreadPool.start to_string start_loop s.pool
    listen (record s { started = true; pool = pool }))

  unfoldable pub conn_name : Bytes → ℕ → Bytes
  conn_name name n = name ++ b'#' ∷ to_string n

  unfoldable pub new_connection : (fd peer : ℕ) → TcpServer → Option TcpServer
  new_connection fd peer s = do
    (loop, pool) ← get_next_loop s.pool
    if ltb s.next_conn_id 2147483647
        then some (
            admit
              (record { name = conn_name s.name s.next_conn_id; loop = loop; fd = fd; peer = peer })
              (record s { pool = pool }))
        else none
