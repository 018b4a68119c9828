-- ===== src/TcpClient/Lifetime.antt =====
-- One connection at a time.
use agora_im.Shared.{
  ℕ, suc, ◌≡◌, ◌∙◌, ap, refl, sym, true, false, ◌&&◌, Option, none, some, List, [], ◌∷◌, ◌++◌, ◌==◌,
  if◌then◌else◌, Bool-cases, Option-cases, inl, inr, arith, length, ==_iff, subst,
}
use agora_im.Shared.Assertions.{◌>>=◌}
use agora_im.Connector.{Connector, start_in_loop, restart}
use agora_im.Connector
use agora_im.Connector.Handed.{
  is_connected, Stays, Hands, step-Stays, step-Hands, start_in_loop-Stays,
}
use agora_im.TcpClient.{
  Task, establishes, shuts, destroys, TcpClient, connect, disconnect, stop, new_connection, is_it,
  remove_connection, called_back, run_connector, Event, connects, disconnects, stops, sets_retry,
  connector_runs, removes, step,
}

-- The connection that is alive after a task, if the task was in order: one is established only
-- when there is none, and only the one alive is shut and destroyed.
unfoldable pub after : Task → Option ℕ → Option (Option ℕ)
after (establishes fd) none = some (some fd)
after (establishes fd) (some x) = none
after (shuts fd) none = none
after (shuts fd) (some x) = if x == fd then some (some x) else none
after (destroys fd) none = none
after (destroys fd) (some x) = if x == fd then some none else none

unfoldable pub replay : List Task → Option ℕ → Option (Option ℕ)
replay [] o = some o
replay (t ∷ ts) o = do o' ← after t o; replay ts o'

bind_some : (q : Option (Option ℕ)) → (q >>= λ o. some o) ≡ q
bind_some none = refl
bind_some (some o) = refl

inner : (o p : Option ℕ) → some o ≡ some p → o ≡ p
inner o p e = cc

replay-append :
    (ts : List Task) (t : Task) (o p : Option ℕ)
    → replay ts o ≡ some p
    → replay (ts ++ t ∷ []) o ≡ after t p
unfolding replay
replay-append [] t o p e = bind_some (after t o) ∙ ap (after t) (inner o p e)
replay-append (u ∷ ts) t o p e = elim (Option-cases (after u o)) [
  | inl n ↦ absurd (cc (rw n at e))
  | inr (q, n) ↦ rw n (replay-append ts t q p (rw n at e))
]

-- The tasks so far were in order and leave the connection that the client holds; and while it
-- holds one, its connector is connected.
pub record IsSound (cl : TcpClient) : Type 0 where
  pub orderly : replay cl.tasks none ≡ some cl.connection
  pub up : (fd : ℕ) → cl.connection ≡ some fd → is_connected cl.connector.state ≡ true

-- Every outcome of the call keeps the invariant.
abbrev pub Keeps : Option TcpClient → Type 0
Keeps none = Unit {0}
Keeps (some cl) = IsSound cl

connect-Keeps :
    (fd : ℕ) (answer : Option ℕ) (cl : TcpClient) → IsSound cl → Keeps (connect fd answer cl)
unfolding connect
connect-Keeps fd answer cl s =
    let c : Connector = record cl.connector { connect = true } in
    elim (Option-cases (start_in_loop fd answer c)) [
      | inl e ↦ rw e tt
      | inr (d, e) ↦ rw e (record {
        orderly = s.orderly;
        up = λ x h. (subst (Stays c) e (start_in_loop-Stays fd answer c (s.up x h))).0;
      })
    ]

after_establishes : (fd : ℕ) → after (establishes fd) none ≡ some (some fd)
unfolding after
after_establishes fd = refl

after_shuts : (fd : ℕ) → after (shuts fd) (some fd) ≡ some (some fd)
unfolding after
after_shuts fd = rw ((==_iff fd fd).1 refl) refl

after_destroys : (fd : ℕ) → after (destroys fd) (some fd) ≡ some none
unfolding after
after_destroys fd = rw ((==_iff fd fd).1 refl) refl

-- One task more.
next_task :
    (cl : TcpClient) (t : Task) (o : Option ℕ)
    → IsSound cl
    → cl.connection ≡ o
    → replay (cl.tasks ++ t ∷ []) none ≡ after t o
next_task cl t o s e = replay-append cl.tasks t none cl.connection s.orderly ∙ ap (after t) e

disconnect-IsSound : (cl : TcpClient) → IsSound cl → IsSound (disconnect cl)
unfolding disconnect
disconnect-IsSound cl s = held cl.connection refl
  where
    held :
        (o : Option ℕ)
        → cl.connection ≡ o
        → IsSound (elim o [
          | none ↦ record cl { connect = false }
          | some fd ↦ record cl { connect = false; tasks = cl.tasks ++ shuts fd ∷ [] }
        ])
    held none e = record { orderly = s.orderly; up = s.up }
    held (some fd) e = record {
      orderly = next_task cl (shuts fd) (some fd) s e ∙ after_shuts fd ∙ ap (λ o. some o) (sym e);
      up = s.up;
    }

is_it-true : (o : Option ℕ) (fd : ℕ) → is_it o fd ≡ true → o ≡ some fd
unfolding is_it
is_it-true none fd h = absurd (cc)
is_it-true (some x) fd h = ap (λ y. some y) ((==_iff x fd).0 h)

-- The client without its connection, whatever its connector does next.
gone :
    (cl : TcpClient) (fd : ℕ) (c : Connector)
    → IsSound cl
    → cl.connection ≡ some fd
    → IsSound (record cl { connection = none; tasks = cl.tasks ++ destroys fd ∷ []; connector = c })
gone cl fd c s e = record {
  orderly = next_task cl (destroys fd) (some fd) s e ∙ after_destroys fd;
  up = λ x h. absurd (cc h);
}

remove-Keeps :
    (fd next : ℕ) (answer : Option ℕ) (cl : TcpClient)
    → IsSound cl
    → Keeps (remove_connection fd next answer cl)
unfolding remove_connection
remove-Keeps fd next answer cl s = elim (Bool-cases (is_it cl.connection fd)) [
  | inr f ↦ rw f tt
  | inl h ↦
      let e = is_it-true cl.connection fd h in
      elim (Bool-cases (cl.retry && cl.connect)) [
        | inr f ↦ rw (h, f) (gone cl fd cl.connector s e)
        | inl w ↦ elim (Option-cases (restart next answer cl.connector)) [
          | inl n ↦ rw (h, w, n) tt
          | inr (c, n) ↦ rw (h, w, n) (gone cl fd c s e)
        ]
      ]
]

called_back_same : (fds : List ℕ) (cl : TcpClient) → called_back (length fds) fds cl ≡ cl
unfolding called_back
called_back_same [] cl = refl
called_back_same (fd ∷ fds) cl =
    let e : (length fds == suc (length fds)) ≡ false = ground arith in rw e refl

-- A new connection where there was none.
called_back-IsSound :
    (n : ℕ) (fds : List ℕ) (cl : TcpClient)
    → IsSound cl
    → cl.connection ≡ none
    → is_connected cl.connector.state ≡ true
    → IsSound (called_back n fds cl)
unfolding called_back new_connection
called_back-IsSound n [] cl s e up = s
called_back-IsSound n (fd ∷ fds) cl s e up = elim (Bool-cases (length fds == n)) [
  | inl h ↦ rw h (record {
    orderly = next_task cl (establishes fd) none s e ∙ after_establishes fd;
    up = λ x q. up;
  })
  | inr h ↦ rw h s
]

unchanged :
    (cl : TcpClient) (d : Connector)
    → IsSound cl
    → d.handed ≡ cl.connector.handed
    → ((fd : ℕ) → cl.connection ≡ some fd → is_connected d.state ≡ true)
    → IsSound (called_back (length cl.connector.handed) d.handed (record cl { connector = d }))
unchanged cl d s e up =
    let cl' : TcpClient = record cl { connector = d } in
    subst IsSound
      (sym (ap (λ h. called_back (length h) d.handed cl') (sym e) ∙ called_back_same d.handed cl'))
      (record { orderly = s.orderly; up = up })

run-Keeps : (e : Connector.Event) (cl : TcpClient) → IsSound cl → Keeps (run_connector e cl)
unfolding run_connector
run-Keeps e cl s = elim (Option-cases (Connector.step e cl.connector)) [
  | inl n ↦ rw n tt
  | inr (d, n) ↦ rw n (moved d n)
]
  where
    absent :
        (d : Connector)
        → Hands cl.connector (some d)
        → cl.connection ≡ none
        → IsSound (called_back (length cl.connector.handed) d.handed (record cl { connector = d }))
    absent d (inl up) h =
        called_back-IsSound _ d.handed (record cl { connector = d })
          (record { orderly = s.orderly; up = λ x q. up }) h up
    absent d (inr same) h = unchanged cl d s same (λ x q. absurd (cc (h, q)))

    moved :
        (d : Connector)
        → Connector.step e cl.connector ≡ some d
        → IsSound (called_back (length cl.connector.handed) d.handed (record cl { connector = d }))
    moved d n = elim (Option-cases cl.connection) [
      | inl h ↦ absent d (subst (Hands cl.connector) n (step-Hands e cl.connector)) h
      | inr (fd, h) ↦
          let (up, same) = subst (Stays cl.connector) n (step-Stays e cl.connector (s.up fd h)) in
          unchanged cl d s same (λ x q. up)
    ]

-- Whatever happens to a client that keeps the invariant, it keeps it.
pub step-Keeps : (e : Event) (cl : TcpClient) → IsSound cl → Keeps (step e cl)
unfolding step stop
step-Keeps (connects fd answer) cl s = connect-Keeps fd answer cl s
step-Keeps disconnects cl s = disconnect-IsSound cl s
step-Keeps stops cl s = record { orderly = s.orderly; up = s.up }
step-Keeps (sets_retry b) cl s = record { orderly = s.orderly; up = s.up }
step-Keeps (connector_runs e) cl s = run-Keeps e cl s
step-Keeps (removes fd next answer) cl s = remove-Keeps fd next answer cl s
