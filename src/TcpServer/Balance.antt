-- ===== src/TcpServer/Balance.antt =====
-- Each connection is established once and destroyed once.
use agora_im.Shared.{
  ℕ, ◌+◌, ◌≤◌, ◌≡◌, ◌∙◌, ap, refl, sym, Bool, some, [], if◌then◌else◌, Bool-cases, inl, inr, arith,
  Bytes, eq_bytes, eq_bytes_iff, subst,
}
use agora_im.TcpServer.{
  Connection, erase, find, TcpServer, new, remove_connection_in_loop, destruct, conn_name,
  new_connection,
}
use agora_im.TcpServer.Counts.{
  established, destroyed, established-remove, destroyed-remove, connections-remove, next-remove,
  destroy_all_lem,
}
use agora_im.TcpServer.Live.{one_if, live, count, live-erase, live-find, Keyed, erase-Keyed}
use agora_im.TcpServer.Admit.{IsBalanced, opened, accepted, admit-IsBalanced}

module _ (to_string : ℕ → Bytes) where
  -- What the server's loop does: it takes a new connection, or removes one that it holds.
  pub data Step (s : TcpServer) : TcpServer → Type 0 where
    accepts :
        (fd peer : ℕ) (s' : TcpServer) → new_connection to_string fd peer s ≡ some s' → Step s s'
    removes :
        (c : Connection)
        → find c.name s.connections ≡ some c
        → Step s (remove_connection_in_loop c s)

  pub data Run : TcpServer → TcpServer → Type 0 where
    here : (s : TcpServer) → Run s s
    then_step : {s s' s'' : TcpServer} → Run s s' → Step s' s'' → Run s s''

  module _ (injective : (n m : ℕ) → to_string n ≡ to_string m → n ≡ m) where
    remove_balance :
        (s : TcpServer) (c : Connection) (name : Bytes)
        → IsBalanced to_string s
        → find c.name s.connections ≡ some c
        → established name s
          ≡ live name (erase c.name s.connections)
            + (destroyed name s + one_if (eq_bytes c.name name))
    unfolding one_if
    remove_balance s c name b h = elim (Bool-cases (eq_bytes c.name name)) [
      | inl t ↦
          let same = (eq_bytes_iff c.name name).0 t in
          omega (
            arith,
            ap one_if t,
            live-erase name c.name s.connections
                ∙ ap (λ (q : Bool). if q then 0 else live name s.connections) t,
            ap (λ m. live m s.connections) same,
            live-find c.name c s.connections h,
            b.balance name,
            b.once name,
          )
      | inr f ↦ omega (
        arith,
        ap one_if f,
        live-erase name c.name s.connections
            ∙ ap (λ (q : Bool). if q then 0 else live name s.connections) f,
        b.balance name,
      )
    ]

    remove-IsBalanced :
        (s : TcpServer) (c : Connection)
        → IsBalanced to_string s
        → find c.name s.connections ≡ some c
        → IsBalanced to_string (remove_connection_in_loop c s)
    remove-IsBalanced s c b h = record {
      keyed = subst Keyed (sym (connections-remove c s)) (erase-Keyed c.name s.connections b.keyed);
      balance = λ name. omega (
        arith,
        established-remove name c s,
        destroyed-remove name c s,
        ap (live name) (connections-remove c s),
        remove_balance s c name b h,
      );
      once = λ name. omega (arith, established-remove name c s, b.once name);
      fresh = λ n le.
          established-remove _ c s
          ∙ ap (λ m. established (conn_name to_string m n) s) (next-remove c s).1
          ∙ b.fresh n (omega (arith, (next-remove c s).0, le));
    }

    accept-IsBalanced :
        (fd peer : ℕ) (s s' : TcpServer)
        → IsBalanced to_string s
        → new_connection to_string fd peer s ≡ some s'
        → IsBalanced to_string s'
    accept-IsBalanced fd peer s s' b e =
        let (loop, pool, q) = accepted to_string fd peer s s' e in
        subst (IsBalanced to_string) (sym q) (
          admit-IsBalanced to_string injective (record s { pool = pool })
            (opened to_string s loop fd peer)
            (record { keyed = b.keyed; balance = b.balance; once = b.once; fresh = b.fresh }) refl)

    new-IsBalanced : (loop : ℕ) (name : Bytes) → IsBalanced to_string (new loop name)
    unfolding new live count
    new-IsBalanced loop name = record {
      keyed = tt;
      balance = λ n. omega arith;
      once = λ n. omega arith;
      fresh = λ n h. refl;
    }

    -- From a server that keeps the invariant, any sequence of new and removed connections leads to one
    -- that does: at every moment the map has each connection that was established and not yet destroyed, and no other;
    -- no name is established twice, so that none is destroyed twice. The numbers that
    -- `std::to_string` writes must differ.
    pub Run-IsBalanced :
        (s s' : TcpServer) → IsBalanced to_string s → Run s s' → IsBalanced to_string s'
    Run-IsBalanced s s' b (here _) = b
    Run-IsBalanced s s' b (then_step {s' = m} r (accepts fd peer t e)) =
        accept-IsBalanced fd peer m t (Run-IsBalanced s m b r) e
    Run-IsBalanced s s' b (then_step {s' = m} r (removes c h)) =
        remove-IsBalanced m c (Run-IsBalanced s m b r) h

    -- After any sequence of new and removed connections, the destructor leaves no connection behind:
    -- each one that was established, under its own name, has then been destroyed, exactly once. The
    -- server kept the invariant at first, and the numbers that `std::to_string` writes differ.
    pub Run_destruct :
        (s s' : TcpServer) (name : Bytes)
        → IsBalanced to_string s
        → Run s s'
        → (destroyed name (destruct s') ≡ established name (destruct s'))
          × (established name (destruct s') ≤ 1)
          × (established name (destruct s') ≡ established name s')
          × ((destruct s').connections ≡ [])
    unfolding destruct
    Run_destruct s s' name b r =
        let b' = Run-IsBalanced s s' b r in
        let (d, t, k) =
          destroy_all_lem name s'.connections (record s' { connections = [] }) b'.keyed in
        (omega (arith, d, t, b'.balance name), omega (arith, t, b'.once name), t, k)
