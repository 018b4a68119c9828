-- ===== src/Acceptor/Opening.antt =====
-- The constructor of an acceptor and `listen`, over the calls of the system.
use agora_im.Shared.{
  ℕ, ◌≡◌, ◌∙◌, ap, Bool, true, none, some, List, [], ◌∷◌, ◌++◌, append_assoc, Bytes, subst,
}
use agora_im.InetAddress.{InetAddress}
use agora_im.Logger.{Place}
use agora_im.Buffer.{Answer}
use agora_im.Sockets.{
  Fd, Syscall, so_reuseaddr, so_reuseport, socket_call, bind_call, listen_call, setsockopt_call,
  Process, Ended, returns, dies, ◌>>=◌, create_nonblocking_or_die, bind_or_die, listen_or_die,
  set_reuse_addr, set_reuse_port,
}
use agora_im.Sockets.Ends.{Grants, Calls, Granted, Ends, Ends-then, or_die-Ends}
use agora_im.Sockets.Errors.{Returns, Made, errors-Made}

-- The calls that open_socket a socket for listening, in order.
abbrev pub opening : Fd → Bool → InetAddress → List Syscall
opening fd reuseport addr =
    socket_call
    ∷ setsockopt_call fd so_reuseaddr true
    ∷ setsockopt_call fd so_reuseport reuseport
    ∷ []

module _ (put_time tid_text strerror : ℕ → Bytes) (at : Place)
    (kernel : List Syscall → Syscall → Answer ℕ) where
  -- The constructor: the descriptor of `acceptSocket_`.
  unfoldable pub open_socket : (reuseport : Bool) → InetAddress → Process → Ended Fd
  open_socket reuseport addr = do
    fd ← create_nonblocking_or_die put_time tid_text strerror at kernel
    _ ← set_reuse_addr put_time tid_text strerror at kernel fd true
    _ ← set_reuse_port put_time tid_text strerror at kernel fd reuseport
    _ ← bind_or_die put_time tid_text strerror at kernel fd addr
    returns fd

  -- The constructor, and then the call of the system that `listen` makes.
  unfoldable pub open_and_listen : (reuseport : Bool) → InetAddress → Process → Ended Fd
  open_and_listen reuseport addr = do
    fd ← open_socket reuseport addr
    _ ← listen_or_die put_time tid_text strerror at kernel fd
    returns fd

  -- The socket of this descriptor is bound to the address.
  abbrev pub IsBound : Bool → InetAddress → Process → Fd → Process → Type 0
  IsBound reuseport addr p fd q =
      (n : ℕ) × (fd ≡ some n)
      × Grants kernel p.calls socket_call n
      × ((m : ℕ) × Grants kernel (p.calls ++ opening fd reuseport addr) (bind_call fd addr) m)
      × (q.calls ≡ p.calls ++ (opening fd reuseport addr ++ bind_call fd addr ∷ []))

  snoc :
      (xs ys zs ws : List Syscall) (c : Syscall)
      → ys ≡ xs ++ zs
      → ws ≡ ys ++ c ∷ []
      → ws ≡ xs ++ (zs ++ c ∷ [])
  snoc xs ys zs ws c e f = f ∙ ap (λ l. l ++ c ∷ []) e ∙ append_assoc xs zs (c ∷ [])

  -- What only logs its failure does not end the process.
  logged_then :
      {B : Type 0} (c : Syscall) (Q : B → Process → Type 0) (m : Process → Ended Unit)
      (f : Unit → Process → Ended B) (q : Process)
      → Returns (λ u r. Made put_time tid_text strerror at c q r) (m q)
      → ((r : Process) → Calls c q r → Ends put_time tid_text strerror at Q (f tt r))
      → Ends put_time tid_text strerror at Q ((m >>= f) q)
  logged_then {B = B} c Q m f q h k = go (m q) h
    where
      go :
          (e : Ended Unit)
          → Returns (λ u r. Made put_time tid_text strerror at c q r) e
          → Ends put_time tid_text strerror at Q (elim e [ dies r ↦ dies r | returns a r ↦ f a r ])
      go (returns u r) h = k r h.0
      go (dies r) h = absurd h

  open_socket-Ends :
      (reuseport : Bool) (addr : InetAddress) (p : Process)
      → Ends put_time tid_text strerror at (IsBound reuseport addr p) (open_socket reuseport addr p)
  unfolding open_socket
  open_socket-Ends reuseport addr p =
      Ends-then put_time tid_text strerror at _ (IsBound reuseport addr p)
        (create_nonblocking_or_die put_time tid_text strerror at kernel) _ p
        (or_die-Ends put_time tid_text strerror at kernel none addr p).0
        (λ fd q₁ (n, e, g, c₁).
          logged_then (setsockopt_call fd so_reuseaddr true) (IsBound reuseport addr p)
            (set_reuse_addr put_time tid_text strerror at kernel fd true) _ q₁
            (errors-Made put_time tid_text strerror at kernel fd true q₁).1
            (λ q₂ c₂.
              logged_then (setsockopt_call fd so_reuseport reuseport) (IsBound reuseport addr p)
                (set_reuse_port put_time tid_text strerror at kernel fd reuseport) _ q₂
                (errors-Made put_time tid_text strerror at kernel fd reuseport q₂).2
                (λ q₃ c₃.
                  let opened =
                    snoc p.calls q₂.calls _ q₃.calls _ (snoc p.calls q₁.calls _ q₂.calls _ c₁ c₂)
                      c₃ in
                  Ends-then put_time tid_text strerror at _ (IsBound reuseport addr p)
                    (bind_or_die put_time tid_text strerror at kernel fd addr) _ q₃
                    (or_die-Ends put_time tid_text strerror at kernel fd addr q₃).1
                    (λ u q₄ r. (
                      n,
                      e,
                      g,
                      (
                        r.0.0,
                        subst (λ cs. Grants kernel cs (bind_call fd addr) r.0.0) opened r.0.1,
                      ),
                      snoc p.calls q₃.calls _ q₄.calls _ opened r.1,
                    )))))

  -- The constructor and `listen` return only when the kernel gave a descriptor and granted `bind` for
  -- the address and `listen`; then just these calls were made, in this order, with SO_REUSEADDR and
  -- SO_REUSEPORT set in between. Otherwise the process ends and the last line printed is a message
  -- of the highest level, whatever level the logger is set to.
  pub open_and_listen-Ends :
      (reuseport : Bool) (addr : InetAddress) (p : Process)
      → Ends put_time tid_text strerror at
          (λ fd q.
            (q' : Process) × IsBound reuseport addr p fd q'
            × Granted put_time tid_text strerror at kernel (listen_call fd) q' q)
          (open_and_listen reuseport addr p)
  unfolding open_and_listen
  open_and_listen-Ends reuseport addr p =
      Ends-then put_time tid_text strerror at (IsBound reuseport addr p) _
        (open_socket reuseport addr) _ p (open_socket-Ends reuseport addr p)
        (λ fd q' b.
          Ends-then put_time tid_text strerror at _ _
            (listen_or_die put_time tid_text strerror at kernel fd) _ q'
            (or_die-Ends put_time tid_text strerror at kernel fd addr q').2 (λ u q r. (q', b, r)))
