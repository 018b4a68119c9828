-- ===== src/TcpServer/Admit.antt =====
-- The invariant of the connections, and that it lasts when one is taken.
use agora_im.Shared.{
  ℕ, ◌+◌, ◌≤◌, ◌<◌, ◌≡◌, ◌∙◌, ap, sym, false, some, ◌∷◌, ltb, Bool-cases, Option-cases, inl, inr,
  arith, Bytes, eq_bytes, eq_bytes_iff, eq_bytes_ne, subst,
}
use agora_im.EventLoopThreadPool.{EventLoopThreadPool, get_next_loop}
use agora_im.TcpServer.{Connection, TcpServer, conn_name, admit, new_connection}
use agora_im.TcpServer.Counts.{
  established, destroyed, established-admit, destroyed-admit, connections-admit, next_conn_id-admit,
  name-admit, cancel,
}
use agora_im.TcpServer.Live.{one_if, live, live-assign, Keyed, assign-Keyed}

module _ (to_string : ℕ → Bytes) where
  -- Of each name the map has as many connections as were established and not destroyed, and one was
  -- established at most. The names of the numbers to come are new.
  pub record IsBalanced (s : TcpServer) : Type 0 where
    pub keyed : Keyed s.connections
    pub balance : (name : Bytes) → established name s ≡ live name s.connections + destroyed name s
    pub once : (name : Bytes) → established name s ≤ 1
    pub fresh : (n : ℕ) → s.next_conn_id ≤ n → established (conn_name to_string s.name n) s ≡ 0

  -- The connection that is opened next.
  abbrev pub opened : TcpServer → (loop fd peer : ℕ) → Connection
  opened s loop fd peer = record {
    name = conn_name to_string s.name s.next_conn_id;
    loop = loop;
    fd = fd;
    peer = peer;
  }

  pub accepted :
      (fd peer : ℕ) (s s' : TcpServer)
      → new_connection to_string fd peer s ≡ some s'
      → (loop : ℕ) × (pool : EventLoopThreadPool) × (s'
          ≡ admit (opened s loop fd peer) (record s { pool = pool }))
  unfolding new_connection
  accepted fd peer s s' e = elim (Option-cases (get_next_loop s.pool)) [
    | inl n ↦ absurd (cc (rw n at e))
    | inr ((loop, pool), n) ↦ (
      loop,
      pool,
      elim (Bool-cases (ltb s.next_conn_id 2147483647)) [
        | inl t ↦ cc (rw (n, t) at e)
        | inr f ↦ absurd (cc (rw (n, f) at e))
      ],
    )
  ]

  module _ (injective : (n m : ℕ) → to_string n ≡ to_string m → n ≡ m) where
    conn_name_injective :
        (name : Bytes) (n m : ℕ) → conn_name to_string name n ≡ conn_name to_string name m → n ≡ m
    unfolding conn_name
    conn_name_injective name n m e =
        injective n m (cc (cancel name (b'#' ∷ to_string n) (b'#' ∷ to_string m) e))

    -- A name that is new.
    later_name :
        (s : TcpServer) (c : Connection) (n : ℕ)
        → c.name ≡ conn_name to_string s.name s.next_conn_id
        → s.next_conn_id < n
        → eq_bytes c.name (conn_name to_string s.name n) ≡ false
    later_name s c n e h =
        eq_bytes_ne _ _
          (λ q. absurd (omega (arith, conn_name_injective s.name s.next_conn_id n (sym e ∙ q))))

    admit_once :
        (s : TcpServer) (c : Connection) (name : Bytes)
        → IsBalanced s
        → established c.name s ≡ 0
        → established name (admit c s) ≤ 1
    unfolding one_if
    admit_once s c name b unused = elim (Bool-cases (eq_bytes c.name name)) [
      | inl t ↦ omega (
        arith,
        established-admit name c s,
        ap one_if t,
        ap (λ m. established m s) ((eq_bytes_iff c.name name).0 t),
        unused,
      )
      | inr f ↦ omega (arith, established-admit name c s, ap one_if f, b.once name)
    ]

    admit_fresh :
        (s : TcpServer) (c : Connection) (n : ℕ)
        → IsBalanced s
        → c.name ≡ conn_name to_string s.name s.next_conn_id
        → s.next_conn_id < n
        → established (conn_name to_string s.name n) (admit c s) ≡ 0
    unfolding one_if
    admit_fresh s c n b e h = omega (
      arith,
      established-admit (conn_name to_string s.name n) c s,
      ap one_if (later_name s c n e h),
      b.fresh n (omega arith),
    )

    pub admit-IsBalanced :
        (s : TcpServer) (c : Connection)
        → IsBalanced s
        → c.name ≡ conn_name to_string s.name s.next_conn_id
        → IsBalanced (admit c s)
    admit-IsBalanced s c b e =
        let unused : established c.name s ≡ 0 =
          ap (λ n. established n s) e ∙ b.fresh s.next_conn_id (omega arith) in
        let absent : live c.name s.connections ≡ 0 = omega (arith, b.balance c.name, unused) in
        record {
          keyed = subst Keyed (sym (connections-admit c s)) (assign-Keyed c s.connections b.keyed);
          balance = λ name. omega (
            arith,
            established-admit name c s,
            destroyed-admit name c s,
            live-assign name c.name c s.connections absent,
            b.balance name,
            ap (live name) (connections-admit c s),
          );
          once = λ name. admit_once s c name b unused;
          fresh = λ n h.
              ap (λ m. established (conn_name to_string m n) (admit c s)) (name-admit c s)
              ∙ admit_fresh s c n b e (omega (arith, next_conn_id-admit c s, h));
        }
