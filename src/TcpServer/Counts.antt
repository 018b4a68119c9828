-- ===== src/TcpServer/Counts.antt =====
-- What each operation adds to the counts, and how often a connection was established and destroyed.
use agora_im.Shared.{ℕ, ◌+◌, ◌≡◌, ◌∙◌, ap, refl, [], ◌∷◌, ◌++◌, arith, Bytes, eq_bytes}
use agora_im.TcpServer.{
  Connection, Task, establishes, destroys, ConnectionMap, assign, erase, TcpServer, run_in_loop,
  remove_connection_in_loop, destroy_all, admit,
}
use agora_im.TcpServer.Live.{one_if, live, establishes_it, destroys_it, count, count-append, Keyed}

-- How often a connection of this name was established, and destroyed.
abbrev pub established : Bytes → TcpServer → ℕ
established name s = count (establishes_it name) s.tasks

abbrev pub destroyed : Bytes → TcpServer → ℕ
destroyed name s = count (destroys_it name) s.tasks

pub established-run_in_loop :
    (name : Bytes) (loop : ℕ) (t : Task) (s : TcpServer)
    → established name (run_in_loop loop t s) ≡ established name s + one_if (establishes_it name t)
unfolding run_in_loop count
established-run_in_loop name loop t s =
    omega (arith, count-append (establishes_it name) s.tasks ((loop, t) ∷ []))

pub destroyed-run_in_loop :
    (name : Bytes) (loop : ℕ) (t : Task) (s : TcpServer)
    → destroyed name (run_in_loop loop t s) ≡ destroyed name s + one_if (destroys_it name t)
unfolding run_in_loop count
destroyed-run_in_loop name loop t s =
    omega (arith, count-append (destroys_it name) s.tasks ((loop, t) ∷ []))

pub run-destroys :
    (name : Bytes) (c : Connection) (s : TcpServer)
    → destroyed name (run_in_loop c.loop (destroys c) s)
      ≡ destroyed name s + one_if (eq_bytes c.name name)
unfolding destroys_it
run-destroys name c s = destroyed-run_in_loop name c.loop (destroys c) s

pub run-keeps :
    (name : Bytes) (c : Connection) (s : TcpServer)
    → established name (run_in_loop c.loop (destroys c) s) ≡ established name s
unfolding establishes_it one_if
run-keeps name c s = established-run_in_loop name c.loop (destroys c) s ∙ omega arith

pub connections-run :
    (c : Connection) (s : TcpServer)
    → (run_in_loop c.loop (destroys c) s).connections ≡ s.connections
unfolding run_in_loop
connections-run c s = refl

pub established-admit :
    (name : Bytes) (c : Connection) (s : TcpServer)
    → established name (admit c s) ≡ established name s + one_if (eq_bytes c.name name)
unfolding admit establishes_it
established-admit name c s = established-run_in_loop name c.loop (establishes c) _

pub destroyed-admit :
    (name : Bytes) (c : Connection) (s : TcpServer) → destroyed name (admit c s) ≡ destroyed name s
unfolding admit destroys_it one_if
destroyed-admit name c s = destroyed-run_in_loop name c.loop (establishes c) _ ∙ omega arith

pub connections-admit :
    (c : Connection) (s : TcpServer) → (admit c s).connections ≡ assign c.name c s.connections
unfolding admit run_in_loop
connections-admit c s = refl

pub next_conn_id-admit :
    (c : Connection) (s : TcpServer) → (admit c s).next_conn_id ≡ s.next_conn_id + 1
unfolding admit run_in_loop
next_conn_id-admit c s = refl

pub name-admit : (c : Connection) (s : TcpServer) → (admit c s).name ≡ s.name
unfolding admit run_in_loop
name-admit c s = refl

pub established-remove :
    (name : Bytes) (c : Connection) (s : TcpServer)
    → established name (remove_connection_in_loop c s) ≡ established name s
unfolding remove_connection_in_loop establishes_it one_if
established-remove name c s = established-run_in_loop name c.loop (destroys c) _ ∙ omega arith

pub destroyed-remove :
    (name : Bytes) (c : Connection) (s : TcpServer)
    → destroyed name (remove_connection_in_loop c s)
      ≡ destroyed name s + one_if (eq_bytes c.name name)
unfolding remove_connection_in_loop destroys_it
destroyed-remove name c s = destroyed-run_in_loop name c.loop (destroys c) _

pub connections-remove :
    (c : Connection) (s : TcpServer)
    → (remove_connection_in_loop c s).connections ≡ erase c.name s.connections
unfolding remove_connection_in_loop run_in_loop
connections-remove c s = refl

pub next-remove :
    (c : Connection) (s : TcpServer)
    → ((remove_connection_in_loop c s).next_conn_id ≡ s.next_conn_id)
      × ((remove_connection_in_loop c s).name ≡ s.name)
unfolding remove_connection_in_loop run_in_loop
next-remove c s = (refl, refl)

-- What the destructor adds for the connections of a map.
pub destroy_all_lem :
    (name : Bytes) (m : ConnectionMap) (s : TcpServer)
    → Keyed m
    → (destroyed name (destroy_all m s) ≡ destroyed name s + live name m)
      × (established name (destroy_all m s) ≡ established name s)
      × ((destroy_all m s).connections ≡ s.connections)
unfolding destroy_all live
destroy_all_lem name [] s h = (omega arith, refl, refl)
destroy_all_lem name ((n, c) ∷ m) s (e, h) =
    let (d, t, k) = destroy_all_lem name m (run_in_loop c.loop (destroys c) s) h in
    (
      omega (arith, d, run-destroys name c s, ap (λ q. one_if (eq_bytes q name)) e),
      t ∙ run-keeps name c s,
      k ∙ connections-run c s,
    )

pub cancel : (xs ys zs : Bytes) → xs ++ ys ≡ xs ++ zs → ys ≡ zs
cancel [] ys zs e = e
cancel (x ∷ xs) ys zs e = cancel xs ys zs (cc)
