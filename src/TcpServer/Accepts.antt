-- ===== src/TcpServer/Accepts.antt =====
-- A burst of connections that reaches the server through its acceptor.
use agora_im.Shared.{
  ℕ, suc, ◌+◌, ◌≤◌, ◌<◌, ◌≡◌, ◌∙◌, ap, refl, sym, true, some, List, [], ◌∷◌, ◌++◌, append-nil,
  append_assoc, Option-cases, inl, inr, arith, Bytes, length, ap₂, lt→ltb, subst,
}
use agora_im.Shared.Assertions.{◌>>=◌}
use agora_im.Acceptor.{Accepted, failed, is_expected, Acceptor, handle_read}
use agora_im.Acceptor.Burst.{burst, each, handle_read-burst}
use agora_im.EventLoopThreadPool.{EventLoopThreadPool, get_next_loop}
use agora_im.EventLoopThreadPool.Rounds.{calls}
use agora_im.TcpServer.{
  Connection, Task, establishes, TcpServer, run_in_loop, conn_name, admit, new_connection,
}

module _ (to_string : ℕ → Bytes) where
  -- What the loops are asked for these connections, numbered from `n` on.
  unfoldable pub opened : Bytes → ℕ → List ℕ → List (ℕ × ℕ) → List (ℕ × Task)
  opened name n [] cs = []
  opened name n (l ∷ ls) [] = []
  opened name n (l ∷ ls) ((fd, peer) ∷ cs) =
      (
        l,
        establishes (record { name = conn_name to_string name n; loop = l; fd = fd; peer = peer }),
      )
      ∷ opened name (suc n) ls cs

  -- The server once it has taken the connections.
  pub record Took (s : TcpServer) (ls : List ℕ) (pool : EventLoopThreadPool) (cs : List (ℕ × ℕ))
      (s' : TcpServer) : Type 0 where
    pub tasks : s'.tasks ≡ s.tasks ++ opened s.name s.next_conn_id ls cs
    pub next : s'.next_conn_id ≡ s.next_conn_id + length cs
    pub pool_after : s'.pool ≡ pool

  -- One connection.
  taken :
      (fd peer l : ℕ) (pool : EventLoopThreadPool) (s : TcpServer)
      → get_next_loop s.pool ≡ some (l, pool)
      → s.next_conn_id < 2147483647
      → (s' : TcpServer) × (new_connection to_string fd peer s ≡ some s')
        × (s'.name ≡ s.name)
        × (s'.pool ≡ pool)
        × (s'.next_conn_id ≡ suc s.next_conn_id)
        × (s'.tasks ≡ s.tasks ++ opened s.name s.next_conn_id (l ∷ []) ((fd, peer) ∷ []))
  unfolding new_connection admit run_in_loop opened
  taken fd peer l pool s e h =
      let c : Connection = record {
        name = conn_name to_string s.name s.next_conn_id;
        loop = l;
        fd = fd;
        peer = peer;
      } in
      (
        admit c (record s { pool = pool }),
        rw (e, lt→ltb s.next_conn_id 2147483647 h) refl,
        refl,
        refl,
        omega arith,
        refl,
      )

  -- One more call of the pool, seen from its result.
  calls_more :
      (n : ℕ) (p pool : EventLoopThreadPool) (ls : List ℕ)
      → calls (suc n) p ≡ some (ls, pool)
      → (l : ℕ) × (p' : EventLoopThreadPool) × (ms : List ℕ) × (get_next_loop p ≡ some (l, p'))
        × (calls n p' ≡ some (ms, pool))
        × (ls ≡ l ∷ ms)
  unfolding calls
  calls_more n p pool ls e = elim (Option-cases (get_next_loop p)) [
    | inl q ↦ absurd (cc (rw q at e))
    | inr ((l, p'), q) ↦ elim (Option-cases (calls n p')) [
      | inl r ↦ absurd (cc (rw (q, r) at e))
      | inr ((ms, p''), r) ↦ (l, p', ms, q, r ∙ cc (rw (q, r) at e), cc (rw (q, r) at e))
    ]
  ]

  calls_end :
      (p pool : EventLoopThreadPool) (ls : List ℕ)
      → calls 0 p ≡ some (ls, pool)
      → (ls ≡ []) × (p ≡ pool)
  unfolding calls
  calls_end p pool ls e = (cc, cc)

  -- The first connection, and then the others.
  Took-first :
      (fd peer l : ℕ) (cs : List (ℕ × ℕ)) (s s' s'' : TcpServer) (ms : List ℕ)
      (pool : EventLoopThreadPool)
      → s'.name ≡ s.name
      → s'.next_conn_id ≡ suc s.next_conn_id
      → s'.tasks ≡ s.tasks ++ opened s.name s.next_conn_id (l ∷ []) ((fd, peer) ∷ [])
      → Took s' ms pool cs s''
      → Took s (l ∷ ms) pool ((fd, peer) ∷ cs) s''
  unfolding opened
  Took-first fd peer l cs s s' s'' ms pool named numbered queued t = record {
    tasks =
        t.tasks
        ∙ ap₂ (λ (us vs : List (ℕ × Task)). us ++ vs) queued
            (ap₂ (λ (n : Bytes) (i : ℕ). opened n i ms cs) named numbered)
        ∙ append_assoc s.tasks (opened s.name s.next_conn_id (l ∷ []) ((fd, peer) ∷ []))
            (opened s.name (suc s.next_conn_id) ms cs);
    next = omega (arith, t.next, numbered);
    pool_after = t.pool_after;
  }

  each-Took :
      (cs : List (ℕ × ℕ)) (s : TcpServer) (ls : List ℕ) (pool : EventLoopThreadPool)
      → calls (length cs) s.pool ≡ some (ls, pool)
      → s.next_conn_id + length cs ≤ 2147483647
      → (s' : TcpServer) × (each (new_connection to_string) cs s ≡ some s') × Took s ls pool cs s'
  unfolding each opened
  each-Took [] s ls pool e h =
      let (none_left, same) = calls_end s.pool pool ls e in
      (
        s,
        refl,
        rw none_left
            (record { tasks = sym (append-nil s.tasks); next = omega arith; pool_after = same }),
      )
  each-Took ((fd, peer) ∷ cs) s ls pool e h =
      let (l, p, ms, q, r, parts) = calls_more (length cs) s.pool pool ls e in
      let (s', made, named, pooled, numbered, queued) = taken fd peer l p s q (omega arith) in
      let (s'', rest, t) =
        each-Took cs s' ms pool (ap (calls (length cs)) pooled ∙ r) (omega (arith, numbered)) in
      (
        s'',
        rw made rest,
        subst (λ ks. Took s ks pool ((fd, peer) ∷ cs) s'') (sym parts)
            (Took-first fd peer l cs s s' s'' ms pool named numbered queued t),
      )

  -- `handleRead` of the acceptor, with `newConnection` of a server as its callback, at a burst of
  -- connections that ends in an expected error: the server takes them all, and no descriptor is closed.
  -- What the loops are asked is what they were asked before, and then to establish each connection,
  -- in order, under the next numbers, on the loops that as many calls of `getNextLoop` give. Those calls
  -- must succeed, and the number of the next connection must not overflow.
  pub handle_read-Took :
      (a : Acceptor TcpServer) (cs : List (ℕ × ℕ)) (errno : ℕ) (rest : List Accepted)
      (s : TcpServer) (closed ls : List ℕ) (pool : EventLoopThreadPool)
      → a.callback ≡ some (new_connection to_string)
      → is_expected errno ≡ true
      → calls (length cs) s.pool ≡ some (ls, pool)
      → s.next_conn_id + length cs ≤ 2147483647
      → (s' : TcpServer) × (handle_read a (burst cs (failed errno ∷ rest)) (s, closed)
          ≡ some ((s', closed), rest))
        × Took s ls pool cs s'
  handle_read-Took a cs errno rest s closed ls pool h e c fits =
      let (s', q, t) = each-Took cs s ls pool c fits in
      (
        s',
        ((handle_read-burst a cs errno rest s closed).0 e).1 (new_connection to_string) h
            ∙ ap (λ o. o >>= λ r. some ((r, closed), rest)) q,
        t,
      )
